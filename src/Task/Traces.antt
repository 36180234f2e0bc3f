-- ===== src/Task/Traces.antt =====
-- What a task that returns has done, and what no trace of a task holds.
use hbs_queue.Errors.{GoError, Result, ok, Result-cases}
use hbs_queue.Prelude.{
  ◌≡◌, refl, ap, ◌∙◌, Option, none, some, List, [], ◌∷◌, ◌++◌, Bytes, All, inl, inr,
}
use hbs_queue.Task.{
  Event, Task, pure, emit, lift, check, update, perform, wrapping, deferring, ◌>>=◌,
}

pub All-append {ℓ κ} :
    {A : Type ℓ} (P : A → Type κ) (xs ys : List A) → All P xs → All P ys → All P (xs ++ ys)
All-append P [] ys hx hy = hy
All-append P (x ∷ xs) ys hx hy = (hx.0, All-append P xs ys hx.1 hy)

-- Every event of the task's trace has the property.
pub record Emits {D A : Type 0} (P : Event → Type 0) (m : Task D A) : Type 0 where
  pub at : (d : D) → All P (m d).1

module _ {D : Type 0} (P : Event → Type 0) where
  pub Emits-pure : {A : Type 0} (a : A) → Emits P (pure {D = D} a)
  unfolding pure
  Emits-pure a = record { at = λ d. tt }

  pub Emits-emit : (e : Event) → P e → Emits P (emit {D = D} e)
  unfolding emit
  Emits-emit e h = record { at = λ d. (h, tt) }

  pub Emits-lift : {A : Type 0} (r : Result A) → Emits P (lift {D = D} r)
  unfolding lift
  Emits-lift r = record { at = λ d. tt }

  pub Emits-check : (o : Option GoError) → Emits P (check {D = D} o)
  unfolding check
  Emits-check none = record { at = λ d. tt }
  Emits-check (some e) = record { at = λ d. tt }

  pub Emits-update : {A : Type 0} (call : D → D × Result A) → Emits P (update call)
  unfolding update
  Emits-update call = record { at = λ d. tt }

  pub Emits-perform : (call : D → D × Option GoError) → Emits P (perform call)
  unfolding perform
  Emits-perform call = record { at = λ d. (Emits-check (call d).1).at (call d).0 }

  pub Emits-wrapping :
      {A : Type 0} (prefix : Bytes) (m : Task D A) → Emits P m → Emits P (wrapping prefix m)
  unfolding wrapping
  Emits-wrapping prefix m h = record { at = λ d. h.at d }

  pub Emits-bind :
      {A B : Type 0} (m : Task D A) (f : A → Task D B)
      → Emits P m
      → ((a : A) → Emits P (f a))
      → Emits P (m >>= f)
  unfolding ◌>>=◌
  Emits-bind m f hm hf = record {
    at = λ d. elim (Result-cases (m d).0) [
      | inl (a, e) ↦
          rw (e, ◌>>=◌) (All-append P (m d).1 (f a (m d).2).1 (hm.at d) ((hf a).at (m d).2))
      | inr (x, e) ↦ rw (e, ◌>>=◌) (hm.at d)
    ];
  }

-- Where the task returns, its trace is `t`.
pub record Writes {D A : Type 0} (t : List Event) (m : Task D A) : Type 0 where
  pub at : (d : D) (a : A) → (m d).0 ≡ ok a → (m d).1 ≡ t

module _ {D : Type 0} where
  pub Writes-emit : (e : Event) → Writes (e ∷ []) (emit {D = D} e)
  unfolding emit
  Writes-emit e = record { at = λ d a h. refl }

  pub Writes-pure : {A : Type 0} (a : A) → Writes [] (pure {D = D} a)
  unfolding pure
  Writes-pure x = record { at = λ d a h. refl }

  pub Writes-lift : {A : Type 0} (r : Result A) → Writes [] (lift {D = D} r)
  unfolding lift
  Writes-lift r = record { at = λ d a h. refl }

  pub Writes-check : (o : Option GoError) → Writes [] (check {D = D} o)
  unfolding check
  Writes-check none = record { at = λ d a h. refl }
  Writes-check (some e) = record { at = λ d a h. refl }

  pub Writes-update : {A : Type 0} (call : D → D × Result A) → Writes [] (update call)
  unfolding update
  Writes-update call = record { at = λ d a h. refl }

  pub Writes-perform : (call : D → D × Option GoError) → Writes [] (perform call)
  unfolding perform
  Writes-perform call = record { at = λ d a h. (Writes-check (call d).1).at (call d).0 a h }

  pub Writes-wrapping :
      {A : Type 0} {t : List Event} {m : Task D A} (prefix : Bytes)
      → Writes t m
      → Writes t (wrapping prefix m)
  unfolding wrapping
  Writes-wrapping {m} prefix w = record {
    at = λ d a h. elim (Result-cases (m d).0) [
      | inl (b, e) ↦ w.at d b e
      | inr (x, e) ↦ absurd (let bad = rw (e, wrapping) at h in cc)
    ];
  }

  pub Writes-bind :
      {A B : Type 0} {t u : List Event} {m : Task D A} {f : A → Task D B}
      → Writes t m
      → ((a : A) → Writes u (f a))
      → Writes (t ++ u) (m >>= f)
  unfolding ◌>>=◌
  Writes-bind {t} {m} {f} wm wf = record {
    at = λ d b h. elim (Result-cases (m d).0) [
      | inl (a, e) ↦
          let rest = rw (e, ◌>>=◌) at h in
          rw (e, ◌>>=◌)
            (ap (λ x. x ++ (f a (m d).2).1) (wm.at d a e)
              ∙ ap (λ x. t ++ x) ((wf a).at (m d).2 b rest))
      | inr (x, e) ↦ absurd (let bad = rw (e, ◌>>=◌) at h in cc)
    ];
  }

  pub Writes-deferring :
      {A : Type 0} {t : List Event} {m : Task D A} (e : Event)
      → Writes t m
      → Writes (t ++ e ∷ []) (deferring e m)
  unfolding deferring
  Writes-deferring e w = record { at = λ d a h. ap (λ x. x ++ e ∷ []) (w.at d a h) }

  -- A chain whose first task returned is the rest, from the state and behind the trace that it left.
  pub bind_of_ok :
      {A B : Type 0} (m : Task D A) (f : A → Task D B) (d : D) {a : A}
      → (m d).0 ≡ ok a
      → (m >>= f) d ≡ ((f a (m d).2).0, (m d).1 ++ (f a (m d).2).1, (f a (m d).2).2)
  unfolding ◌>>=◌
  bind_of_ok m f d e = rw (e, ◌>>=◌) refl

  -- A chain that returns: its first task returned, and so did the rest.
  pub bind-ok :
      {A B : Type 0} (m : Task D A) (f : A → Task D B) (d : D) {b : B}
      → ((m >>= f) d).0 ≡ ok b
      → (a : A) × ((m d).0 ≡ ok a) × ((f a (m d).2).0 ≡ ok b) × (((m >>= f) d).2 ≡ (f a (m d).2).2)
  unfolding ◌>>=◌
  bind-ok m f d h = elim (Result-cases (m d).0) [
    | inl (a, e) ↦ (a, e, rw (e, ◌>>=◌) at h, rw (e, ◌>>=◌) refl)
    | inr (x, e) ↦ absurd (let bad = rw (e, ◌>>=◌) at h in cc)
  ]
