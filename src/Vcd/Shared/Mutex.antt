-- ===== src/Vcd/Shared/Mutex.antt =====
-- Who holds the client's mutex: the goroutines inside it, and how they leave it again.
use hbs_queue.Errors.{ok, err}
use hbs_queue.Prelude.{
  ℕ, ◌<◌, ◌≡◌, ◌≢◌, none, some, ◌++◌, arith, ◌==◌, sym, refl, ◌∙◌, Bool-cases, Option-cases, inl,
  inr, eq_iff, str_eq,
}
use hbs_queue.Vcd.Client.{Platform, Client, take_token, sessions_path}
use hbs_queue.Vcd.Shared.{
  Shared, Pc, idle, checking, asking, answered, leaving, ready, replied, rejected, clearing,
  cleared, session, Move, lock, cached, refuse, prepare, login, fail, deny, accept, unlock, give_up,
  abandon, send, reject, finish, lose, lock_again, clear, unlock_again, System, moved, Step, pick,
  Reach, start, later,
}
use hbs_queue.Vcd.Shared.Invariant.{At}

-- The steps between a Lock and its Unlock.
abbrev pub Inside : Pc → Type 0
Inside idle = ⊥
Inside checking = Unit {0}
Inside asking = Unit {0}
Inside (answered _) = Unit {0}
Inside (leaving _) = Unit {0}
Inside (ready _) = ⊥
Inside (replied _) = ⊥
Inside rejected = ⊥
Inside clearing = Unit {0}
Inside cleared = Unit {0}

-- The steps that are left until the Unlock.
abbrev pub rank : Pc → ℕ
rank idle = 0
rank checking = 4
rank asking = 3
rank (answered _) = 2
rank (leaving _) = 1
rank (ready _) = 0
rank (replied _) = 0
rank rejected = 0
rank clearing = 2
rank cleared = 1

-- A goroutine inside holds the mutex.
pub Inside-holder :
    {N : Type 0} (s : Shared N) (i : ℕ) (p : Pc) → Inside p → At s i p → s.holder ≡ some i
Inside-holder s i idle x h = elim x [ ]
Inside-holder s i checking x h = h
Inside-holder s i asking x (h, _) = h
Inside-holder s i (answered _) x (h, _) = h
Inside-holder s i (leaving (ok _)) x (h, _) = h
Inside-holder s i (leaving (err _)) x h = h
Inside-holder s i (ready _) x h = elim x [ ]
Inside-holder s i (replied _) x h = elim x [ ]
Inside-holder s i rejected x h = elim x [ ]
Inside-holder s i clearing x h = h
Inside-holder s i cleared x h = h

-- What a step does with the mutex.
data Effect {N : Type 0} (i : ℕ) (s m : Shared N) (p q : Pc) : Type 0 where
  keeps : m.holder ≡ s.holder → (Inside p → Inside q) → Effect i s m p q
  takes : m.holder ≡ some i → Inside q → Effect i s m p q
  frees : m.holder ≡ none → Effect i s m p q

module _ {N : Type 0} (platform : Platform N) where
  Move-Effect :
      (s : Shared N) (i : ℕ) (p : Pc) (m : Shared N) (q : Pc)
      → Move platform s i p m q
      → Effect i s m p q
  Move-Effect s i _ _ _ (lock _) = takes refl tt
  Move-Effect s i _ _ _ (cached _) = keeps refl (λ x. tt)
  Move-Effect s i _ _ _ (refuse _ _) = keeps refl (λ x. tt)
  Move-Effect s i _ _ _ (prepare _ _) = keeps refl (λ x. tt)
  Move-Effect s i _ _ _ login = keeps refl (λ x. tt)
  Move-Effect s i _ _ _ fail = keeps refl (λ x. tt)
  Move-Effect s i _ _ _ (deny _) = keeps refl (λ x. tt)
  Move-Effect s i _ _ _ (accept _) = keeps refl (λ x. tt)
  Move-Effect s i _ _ _ unlock = frees refl
  Move-Effect s i _ _ _ give_up = frees refl
  Move-Effect s i _ _ _ (abandon _ _ _) = keeps refl (λ x. x)
  Move-Effect s i _ _ _ (send _ _ _ _) = keeps refl (λ x. x)
  Move-Effect s i _ _ _ (reject _) = keeps refl (λ x. x)
  Move-Effect s i _ _ _ (finish _) = keeps refl (λ x. x)
  Move-Effect s i _ _ _ lose = keeps refl (λ x. x)
  Move-Effect s i _ _ _ (lock_again _) = takes refl tt
  Move-Effect s i _ _ _ clear = keeps refl (λ x. x)
  Move-Effect s i _ _ _ unlock_again = frees refl

  abbrev IsOwned : System platform → Type 0
  IsOwned s = (k : ℕ) → s.shared.holder ≡ some k → Inside (s.pc k)

  moved-Inside :
      (s : System platform) (i : ℕ) (m : Shared N) (p : Pc)
      → IsOwned s
      → Effect i s.shared m (s.pc i) p
      → (k : ℕ) → m.holder ≡ some k
      → Inside (moved platform s.pc i p k)
  moved-Inside s i m p h effect k e = elim (Bool-cases (k == i)) [
    | inl x ↦
        let same : k ≡ i = ground (arith, x) in
        rw (x, moved)
          (elim effect [
            | keeps f g ↦ g (h i (sym f ∙ e ∙ ground arith))
            | takes f g ↦ g
            | frees f ↦ absurd (let bad = sym f ∙ e in cc)
          ])
    | inr x ↦
        let other : k ≢ i = ground (arith, x) in
        rw (x, moved)
          (elim effect [
            | keeps f g ↦ h k (sym f ∙ e)
            | takes f g ↦ absurd (ground arith)
            | frees f ↦ absurd (let bad = sym f ∙ e in cc)
          ])
  ]

  Step-IsOwned : {s t : System platform} → IsOwned s → Step platform s t → IsOwned t
  Step-IsOwned {s} h (pick i {m} {p} move) =
      moved-Inside s i m p h (Move-Effect s.shared i _ m p move)

  pub Reach-IsOwned :
      {net : N} {client : Client} {s : System platform}
      → Reach platform net client s
      → (k : ℕ) → s.shared.holder ≡ some k
      → Inside (s.pc k)
  Reach-IsOwned start = λ k e. absurd (let bad = e in cc)
  Reach-IsOwned (later r step) = Step-IsOwned (Reach-IsOwned r) step

  -- A goroutine inside can always go on, and comes nearer to its Unlock.
  pub next :
      (s : Shared N) (i : ℕ) (p : Pc)
      → Inside p
      → At s i p
      → (m : Shared N) × (q : Pc) × Move platform s i p m q × (rank q < rank p)
  next s i idle x h = elim x [ ]
  next s i checking x h = elim (Bool-cases (str_eq s.client.token "")) [
    | inr e ↦ (_, _, cached (ground (arith, eq_iff s.client.token "")), omega arith)
    | inl e ↦
        elim (Option-cases (platform.request_error "POST" (s.client.base_url ++ sessions_path))) [
          | inl f ↦ (_, _, prepare (ground (arith, eq_iff s.client.token "")) f, omega arith)
          | inr (w, f) ↦ (_, _, refuse (ground (arith, eq_iff s.client.token "")) f, omega arith)
        ]
  ]
  next s i asking x h = (_, _, login, omega arith)
  next s i (answered (err e)) x h = (_, _, fail, omega arith)
  next s i (answered (ok resp)) x h = elim (Option-cases (take_token platform resp (session s)).1) [
    | inl e ↦ (_, _, accept e, omega arith)
    | inr (w, e) ↦ (_, _, deny e, omega arith)
  ]
  next s i (leaving (ok t)) x h = (_, _, unlock, omega arith)
  next s i (leaving (err e)) x h = (_, _, give_up, omega arith)
  next s i (ready _) x h = elim x [ ]
  next s i (replied _) x h = elim x [ ]
  next s i rejected x h = elim x [ ]
  next s i clearing x h = (_, _, clear, omega arith)
  next s i cleared x h = (_, _, unlock_again, omega arith)
