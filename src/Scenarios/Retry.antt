-- ===== src/Scenarios/Retry.antt =====
-- A call that is tried again: the state counts the calls and the source of random numbers is fixed.
use hbs_queue.Errors.{GoError, message}
use hbs_queue.Prelude.{
  ℕ, suc, ◌*◌, ◌≤◌, ◌<◌, ◌≡◌, Option, none, some, codes, arith, if◌then◌else◌, ltb,
}
use hbs_queue.Prelude.Int.{ℤ, pos}
use hbs_queue.Retry.Attempts.{Ends, do_retry-Ends}
use hbs_queue.Retry.Delays.{capped, backoff_bounds}
use hbs_queue.Retry.{backoff, do_retry}

abbrev rand_int : ℕ → ℕ → ℕ × Option ℕ
rand_int max s = (s, if ltb 5 max then some 5 else none)

in_range : (max n s : ℕ) → (rand_int max s).1 ≡ some n → n < max
in_range max n s h = ground arith

abbrev wait : ℤ → ℕ → ℕ × Option GoError
wait delay s = (s, none)

-- The first two calls fail.
abbrev flaky : ℕ → ℕ × Option GoError
flaky s = (suc s, if ltb s 2 then some (message (codes "down")) else none)

do_retry-Ends_example : Ends rand_int wait flaky 5 0 (do_retry rand_int wait 5 flaky 0)
do_retry-Ends_example = do_retry-Ends rand_int wait flaky 5 0 (omega arith)

backoff_bounds_example :
    (delay : ℕ) × ((backoff rand_int wait 3 0).1 ≡ pos delay)
    × (capped 3 ≤ delay)
    × (2 * delay ≤ 3 * capped 3)
backoff_bounds_example = backoff_bounds rand_int in_range wait 3 0 (omega arith)
