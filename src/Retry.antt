-- ===== src/Retry.antt =====
-- internal/retry/retry.go. A call acts on a state `S`, which holds what the called function, the
-- random source and the clock change. Not under src/ and so parameters: `rand_int max`, which is
-- crypto/rand.Int with none for an error, and `wait d`, the select between the timer and ctx.Done,
-- which returns ctx.Err() if the context ended first, and none once the delay has passed.
pub mod Delays
pub mod Attempts
pub mod Views
pub mod Calls
use hbs_queue.Errors.{GoError, wrap_two}
use hbs_queue.Prelude.{
  ℕ, zero, suc, ◌-◌, ◌*◌, ◌^◌, true, false, Option, none, some, codes, ◌==◌, if◌then◌else◌,
}
use hbs_queue.Prelude.Int.{ℤ, pos, pos_part, leb_ℤ, ltb_ℤ, to_int64, add_int64, half}

-- time.Second, in nanoseconds
abbrev pub second : ℕ
second = 1000000000

-- A time.Duration is an int64, so the shift drops the high bits.
unfoldable pub base_delay : ℕ → ℤ
base_delay attempt =
    let d = to_int64 (second * 2 ^ attempt) in
    let most = pos (30 * second) in if ltb_ℤ most d then most else d

module _ {S : Type 0} (rand_int : ℕ → S → S × Option ℕ) (wait : ℤ → S → S × Option GoError) where
  unfoldable pub jitter : ℤ → S → S × ℤ
  jitter max s = elim (leb_ℤ max (pos 0)) [
    | true ↦ (s, pos 0)
    | false ↦
        let (s', result) = rand_int (pos_part max) s in
        elim result [ none ↦ (s', half max) | some n ↦ (s', pos n) ]
  ]

  -- The delay after attempt `i`.
  unfoldable pub backoff : ℕ → S → S × ℤ
  unfolding base_delay jitter
  backoff i s =
      let (s', extra) = jitter (half (base_delay i)) s in (s', add_int64 (base_delay i) extra)

  -- The loop with `left` rounds to go, of which the next is round `i`.
  unfoldable pub attempts :
      ℕ → ℕ → (S → S × Option GoError) → ℕ → Option GoError → S → S × Option GoError
  unfolding backoff
  attempts zero max fn i last_err s = (s, last_err)
  attempts (suc left) max fn i last_err s =
      let (s₁, result) = fn s in
      elim result [
        | none ↦ (s₁, none)
        | some e ↦ elim (i == max - 1) [
          | true ↦ (s₁, some e)
          | false ↦
              let (s₂, delay) = backoff i s₁ in
              let (s₃, ended) = wait delay s₂ in
              elim ended [
                | some ctx_err ↦ (
                  s₃,
                  some (
                      wrap_two (codes "retry cancelled: ") ctx_err (codes " (last error: ") e
                        (codes ")")),
                )
                | none ↦ attempts left max fn (suc i) (some e) s₃
              ]
        ]
      ]

  -- Do: at most `max_attempts` rounds; a negative number of them runs none, as 0 does.
  unfoldable pub do_retry : ℕ → (S → S × Option GoError) → S → S × Option GoError
  unfolding attempts
  do_retry max_attempts fn s = attempts max_attempts max_attempts fn 0 none s
