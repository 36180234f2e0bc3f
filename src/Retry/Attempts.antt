-- ===== src/Retry/Attempts.antt =====
-- How a retried call ends, and how often the function is called.
use hbs_queue.Errors.{GoError, wrap_two}
use hbs_queue.Prelude.{
  ℕ, zero, suc, ◌+◌, ◌-◌, ◌<◌, ◌≡◌, refl, sym, subst, Option, none, some, codes, arith, inl, inr,
  true, false, Option-cases, ◌==◌,
}
use hbs_queue.Prelude.Int.{ℤ}
use hbs_queue.Retry.{backoff, attempts, do_retry}

module _ {S : Type 0} (rand_int : ℕ → S → S × Option ℕ) (wait : ℤ → S → S × Option GoError) where
  module _ (fn : S → S × Option GoError) (max : ℕ) where
    -- One round, by how it goes.
    attempts_ok :
        (left i : ℕ) (last_err : Option GoError) (s : S)
        → (fn s).1 ≡ none
        → attempts rand_int wait (suc left) max fn i last_err s ≡ fn s
    unfolding attempts
    attempts_ok left i last_err s h = rw (h, attempts)

    attempts_last :
        (left i : ℕ) (last_err : Option GoError) (s : S) {e : GoError}
        → (fn s).1 ≡ some e
        → i ≡ max - 1
        → attempts rand_int wait (suc left) max fn i last_err s ≡ fn s
    unfolding attempts
    attempts_last left i last_err s {e} h at_end =
        let test : (i == max - 1) ≡ true = ground arith in rw (h, attempts) (rw (test, attempts))

    -- The delay after a failure that is not the last, and what waiting for it does.
    abbrev pub waited : ℕ → S → S × Option GoError
    waited i s = wait (backoff rand_int wait i (fn s).0).1 (backoff rand_int wait i (fn s).0).0

    attempts_cancelled :
        (left i : ℕ) (last_err : Option GoError) (s : S) {e ctx_err : GoError}
        → (fn s).1 ≡ some e
        → suc i < max
        → (waited i s).1 ≡ some ctx_err
        → attempts rand_int wait (suc left) max fn i last_err s ≡ (
          (waited i s).0,
          some
              (wrap_two (codes "retry cancelled: ") ctx_err (codes " (last error: ") e (codes ")")),
        )
    unfolding attempts
    attempts_cancelled left i last_err s h more ended =
        let test : (i == max - 1) ≡ false = ground arith in
        rw (h, attempts) (rw (test, attempts) (rw (ended, attempts)))

    attempts_again :
        (left i : ℕ) (last_err : Option GoError) (s : S) {e : GoError}
        → (fn s).1 ≡ some e
        → suc i < max
        → (waited i s).1 ≡ none
        → attempts rand_int wait (suc left) max fn i last_err s
          ≡ attempts rand_int wait left max fn (suc i) (some e) (waited i s).0
    unfolding attempts
    attempts_again left i last_err s h more passed =
        let test : (i == max - 1) ≡ false = ground arith in
        rw (h, attempts) (rw (test, attempts) (rw (passed, attempts)))

    abbrev pub cancelled_with : S → GoError → GoError → S × Option GoError
    cancelled_with s ctx_err e = (
      s,
      some (wrap_two (codes "retry cancelled: ") ctx_err (codes " (last error: ") e (codes ")")),
    )

    -- The rule for the loop: what every way to end gives, and every further round keeps, holds of
    -- the whole call.
    pub record Rounds (Q : ℕ → S → S × Option GoError → Type 0) : Type 0 where
      pub by_success : (i : ℕ) (s : S) → (fn s).1 ≡ none → i < max → Q i s (fn s)
      pub by_last : (i : ℕ) (s : S) (e : GoError) → (fn s).1 ≡ some e → suc i ≡ max → Q i s (fn s)
      pub by_end :
          (i : ℕ) (s : S) (e ctx_err : GoError)
          → (fn s).1 ≡ some e
          → suc i < max
          → (waited i s).1 ≡ some ctx_err
          → Q i s (cancelled_with (waited i s).0 ctx_err e)
      pub by_round :
          (i : ℕ) (s : S) (e : GoError) (r : S × Option GoError)
          → (fn s).1 ≡ some e
          → suc i < max
          → (waited i s).1 ≡ none
          → Q (suc i) (waited i s).0 r
          → Q i s r

    attempts_rule :
        (Q : ℕ → S → S × Option GoError → Type 0)
        → Rounds Q
        → (left i : ℕ) (last_err : Option GoError) (s : S) → i + suc left ≡ max
        → Q i s (attempts rand_int wait (suc left) max fn i last_err s)
    attempts_rule Q rounds zero i last_err s total = elim (Option-cases (fn s).1) [
      | inl h ↦ rw (attempts_ok zero i last_err s h) (rounds.by_success i s h (omega arith))
      | inr (e, h) ↦
          rw (attempts_last zero i last_err s h (omega arith))
            (rounds.by_last i s e h (omega arith))
    ]
    attempts_rule Q rounds (suc left) i last_err s total = elim (Option-cases (fn s).1) [
      | inl h ↦ rw (attempts_ok (suc left) i last_err s h) (rounds.by_success i s h (omega arith))
      | inr (e, h) ↦
          let more : suc i < max = omega arith in
          elim (Option-cases (waited i s).1) [
            | inl passed ↦ rw (attempts_again (suc left) i last_err s h more passed) (
                rounds.by_round i s e _ h more passed
                  (attempts_rule Q rounds left (suc i) (some e) (waited i s).0 (omega arith)))
            | inr (c, ended) ↦
                rw (attempts_cancelled (suc left) i last_err s h more ended)
                  (rounds.by_end i s e c h more ended)
          ]
    ]

    pub do_retry_rule :
        (Q : ℕ → S → S × Option GoError → Type 0)
        → Rounds Q
        → (s : S) → 0 < max
        → Q 0 s (do_retry rand_int wait max fn s)
    unfolding do_retry
    do_retry_rule Q rounds s h =
        let left : ℕ = max - 1 in
        let split : max ≡ suc left = omega arith in
        subst (λ n. Q 0 s (attempts rand_int wait n max fn 0 none s)) (sym split)
          (attempts_rule Q rounds left 0 none s (omega arith))

    -- The calls of `fn` that are made from the state `s` on: the call at index `i` starts in `t`,
    -- where every call before it failed and the context did not end in the wait after it.
    pub data Tried (s : S) : ℕ → S → Type 0 where
      first : Tried s 0 s
      again :
          {i : ℕ} {t : S} {e : GoError}
          → Tried s i t
          → (fn t).1 ≡ some e
          → suc i < max
          → (waited i t).1 ≡ none
          → Tried s (suc i) (waited i t).0

    -- How a retried call from the state `s` on may end in the state and the result `r`: by a call
    -- that succeeds, by the last call that is allowed, which fails, or by the end of the context
    -- after an earlier call that failed.
    pub data Ends (s : S) (r : S × Option GoError) : Type 0 where
      succeeded :
          (i : ℕ) (t : S) → Tried s i t → i < max → fn t ≡ (r.0, none) → r.1 ≡ none → Ends s r
      exhausted :
          (i : ℕ) (t : S) (e : GoError)
          → Tried s i t
          → suc i ≡ max
          → fn t ≡ (r.0, some e)
          → r.1 ≡ some e
          → Ends s r
      cancelled :
          (i : ℕ) (t : S) (e ctx_err : GoError)
          → Tried s i t
          → suc i < max
          → (fn t).1 ≡ some e
          → (waited i t).1 ≡ some ctx_err
          → r ≡ cancelled_with (waited i t).0 ctx_err e
          → Ends s r

    -- A retried call with at least one attempt ends in one of three ways. Each of its calls but the
    -- first starts where the wait after a failed call, in which the context did not end, has left
    -- the state. Either such a call, of an index below the number of attempts, succeeds and its
    -- state is the result, with nil; or the call of the last index fails, and that call's state and
    -- error are the result; or a call of an earlier index fails and the context ends in the wait
    -- after it, and the result is the state after that wait, with an error that wraps the context's
    -- error and that failure.
    pub do_retry-Ends : (s : S) → 0 < max → Ends s (do_retry rand_int wait max fn s)
    do_retry-Ends s h = do_retry_rule (λ i t r. Tried s i t → Ends s r) ends s h first
      where
        ends : Rounds (λ i t r. Tried s i t → Ends s r)
        ends = record {
          by_success = λ i t e more tried. succeeded i t tried more (λ k. ((fn t).0, e k)) e;
          by_last = λ i t e h at_end tried. exhausted i t e tried at_end (λ k. ((fn t).0, h k)) h;
          by_end = λ i t e c h more ended tried. cancelled i t e c tried more h ended refl;
          by_round = λ i t e r h more passed next tried. next (again tried h more passed);
        }
