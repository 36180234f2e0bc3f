-- ===== src/Retry/Calls.antt =====
-- How often a retried function is called.
use hbs_queue.Errors.{GoError}
use hbs_queue.Prelude.{ℕ, suc, ◌+◌, ◌≤◌, ◌<◌, ◌≡◌, ◌≢◌, Option, none, arith, none-ne-some}
use hbs_queue.Prelude.Int.{ℤ}
use hbs_queue.Retry.Views.{view-waited}
use hbs_queue.Retry.{do_retry}
use hbs_queue.Retry.Attempts.{Rounds, do_retry_rule}

module _ {S : Type 0} (rand_int : ℕ → S → S × Option ℕ) (wait : ℤ → S → S × Option GoError)
    (count : S → ℕ) (quiet_rand : (max : ℕ) (s : S) → count (rand_int max s).0 ≡ count s)
    (quiet_wait : (delay : ℤ) (s : S) → count (wait delay s).0 ≡ count s) where
  module _ (fn : S → S × Option GoError) (counts : (s : S) → count (fn s).0 ≡ suc (count s))
      (max : ℕ) where
    -- With at least one attempt allowed, the function is called at least once and at most as often
    -- as attempts are allowed; the random source and the clock do not count.
    do_retry_calls :
        (s : S)
        → 0 < max
        → (suc (count s) ≤ count (do_retry rand_int wait max fn s).0)
          × (count (do_retry rand_int wait max fn s).0 ≤ count s + max)
    do_retry_calls s h = let r = do_retry_rule rand_int wait fn max Q rounds s h in omega (arith, r)
      where
        Q : ℕ → S → S × Option GoError → Type 0
        Q i t r = (suc (count t) ≤ count r.0) × (count r.0 + i ≤ count t + max)

        rounds : Rounds rand_int wait fn max Q
        rounds = record {
          by_success = λ i t e more. omega (arith, counts t);
          by_last = λ i t e h at_end. omega (arith, counts t);
          by_end = λ i t e c h more ended.
              omega
                (arith, counts t, view-waited rand_int wait count quiet_rand quiet_wait fn max i t);
          by_round = λ i t e r h more passed next.
              omega
                (arith, counts t, view-waited rand_int wait count quiet_rand quiet_wait fn max i t);
        }

    -- A function that always fails, in a context that never ends, is called exactly as often as
    -- attempts are allowed, whatever its error says of a retry.
    do_retry_persists :
        (s : S)
        → 0 < max
        → ((t : S) → (fn t).1 ≢ none)
        → ((delay : ℤ) (t : S) → (wait delay t).1 ≡ none)
        → count (do_retry rand_int wait max fn s).0 ≡ count s + max
    do_retry_persists s h fails passes =
        let r = do_retry_rule rand_int wait fn max Q rounds s h in omega (arith, r)
      where
        Q : ℕ → S → S × Option GoError → Type 0
        Q i t r = count r.0 + i ≡ count t + max

        rounds : Rounds rand_int wait fn max Q
        rounds = record {
          by_success = λ i t e more. absurd (fails t e);
          by_last = λ i t e h at_end. omega (arith, counts t);
          by_end = λ i t e c h more ended. absurd (none-ne-some (passes _ _) ended);
          by_round = λ i t e r h more passed next.
              omega
                (arith, counts t, view-waited rand_int wait count quiet_rand quiet_wait fn max i t);
        }
