-- ===== src/Retry/Views.antt =====
-- What the random source and the clock leave alone, waiting after a failure leaves alone.
use hbs_queue.Errors.{GoError}
use hbs_queue.Prelude.{ℕ, ◌≡◌, ◌∙◌, Option, inl, inr, Bool-cases, Option-cases}
use hbs_queue.Prelude.Int.{ℤ, pos, leb_ℤ, pos_part, half}
use hbs_queue.Retry.{base_delay, jitter, backoff}
use hbs_queue.Retry.Attempts.{waited}

module _ {S : Type 0} (rand_int : ℕ → S → S × Option ℕ) (wait : ℤ → S → S × Option GoError)
    {X : Type 0} (view : S → X) (quiet_rand : (max : ℕ) (s : S) → view (rand_int max s).0 ≡ view s)
    (quiet_wait : (delay : ℤ) (s : S) → view (wait delay s).0 ≡ view s) where
  view-jitter : (max : ℤ) (s : S) → view (jitter rand_int wait max s).0 ≡ view s
  unfolding jitter
  view-jitter max s = elim (Bool-cases (leb_ℤ max (pos 0))) [
    | inl e ↦ rw (e, jitter)
    | inr e ↦ elim (Option-cases (rand_int (pos_part max) s).1) [
      | inl r ↦ rw (e, jitter) (rw (r, jitter) (quiet_rand (pos_part max) s))
      | inr (n, r) ↦ rw (e, jitter) (rw (r, jitter) (quiet_rand (pos_part max) s))
    ]
  ]

  -- The view of the state after the wait is that of the state after the call.
  pub view-waited :
      (fn : S → S × Option GoError) (max i : ℕ) (s : S)
      → view (waited rand_int wait fn max i s).0 ≡ view (fn s).0
  unfolding backoff
  view-waited fn max i s = quiet_wait _ _ ∙ view-jitter (half (base_delay i)) (fn s).0
