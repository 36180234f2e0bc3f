-- ===== src/Retry/Delays.antt =====
-- The delays between attempts: their bounds, and where the shift overflows.
use native.Mathlib.Nat.{pow-suc}
use Prim.Native.Nat.{min}
use hbs_queue.Errors.{GoError}
use hbs_queue.Prelude.{
  ℕ, zero, suc, ◌+◌, ◌-◌, ◌*◌, ◌/◌, ◌%◌, ◌^◌, ◌≤◌, ◌<◌, ◌≡◌, refl, Bool, true, false, ◌&&◌, Option,
  some, arith, inl, inr, Option-cases, ◌==◌,
}
use hbs_queue.Prelude.Int.{ℤ, pos, negsuc, two_63, two_64, add_int64, leb_ℤ}
use hbs_queue.Retry.{second, base_delay, jitter, backoff}

-- The delay that the comment promises: 1s, 2s, 4s and so on, at most 30s.
abbrev pub capped : ℕ → ℕ
capped attempt = min (second * 2 ^ attempt) (30 * second)

pow_64 : (k : ℕ) → 2 ^ (k + 64) ≡ two_64 * 2 ^ k
pow_64 zero = refl
pow_64 (suc k) =
    let shift : suc k + 64 ≡ suc (k + 64) = omega arith in
    rw shift (omega (arith, pow_64 k, pow-suc 2 k, pow-suc 2 (k + 64)))

no_bits_left : (y : ℕ) → second * (two_64 * y) % two_64 ≡ 0
no_bits_left y = omega arith

-- From the 65th attempt on the shift leaves no bit of the second, and the delay is 0 rather than
-- the cap.
base_delay_vanishes : (attempt : ℕ) → 64 ≤ attempt → base_delay attempt ≡ pos 0
unfolding base_delay
base_delay_vanishes attempt h =
    let k : ℕ = attempt - 64 in
    let split : attempt ≡ k + 64 = omega arith in
    rw split (rw (pow_64 k) (rw (no_bits_left (2 ^ k)) refl))

-- Whether an integer is the given natural number.
stands_for : ℤ → ℕ → Bool
stands_for (negsuc n) m = false
stands_for (pos n) m = n == m

from-stands_for : (m : ℕ) (z : ℤ) → stands_for z m ≡ true → z ≡ pos m
unfolding stands_for
from-stands_for m (negsuc n) same = cc
from-stands_for m (pos n) same = ground arith

-- The base delays of the first attempts, each compared with the capped one.
delays_agree : (rounds : ℕ) → Bool
delays_agree zero = true
delays_agree (suc attempt) =
    stands_for (base_delay attempt) (capped attempt) && delays_agree attempt

delay_of_round :
    (attempt rounds : ℕ)
    → attempt < rounds
    → delays_agree rounds ≡ true
    → stands_for (base_delay attempt) (capped attempt) ≡ true
unfolding delays_agree
delay_of_round attempt zero below table = absurd (omega arith)
delay_of_round attempt (suc rounds) below table = ground (arith, delay_of_round attempt rounds)

delay_table : delays_agree 34 ≡ true
unfolding delays_agree stands_for base_delay
delay_table = refl

pub base_delay_lem : (attempt : ℕ) → attempt < 34 → base_delay attempt ≡ pos (capped attempt)
base_delay_lem attempt h =
    from-stands_for (capped attempt) (base_delay attempt) (delay_of_round attempt 34 h delay_table)

pow_pos : (k : ℕ) → 1 ≤ 2 ^ k
pow_pos zero = omega arith
pow_pos (suc k) = omega (arith, pow_pos k, pow-suc 2 k)

min_half : (y : ℕ) → 1 ≤ y → 1 ≤ min (second * y) (30 * second) / 2
min_half y h = omega arith

capped_bounds :
    (attempt : ℕ) → attempt < 34 → (1 ≤ capped attempt / 2) × (capped attempt ≤ 30 * second)
capped_bounds attempt h = (min_half (2 ^ attempt) (pow_pos attempt), omega arith)

add_small : (a b : ℕ) → a + b < two_63 → add_int64 (pos a) (pos b) ≡ pos (a + b)
add_small a b h = ground arith

module _ {S : Type 0} (rand_int : ℕ → S → S × Option ℕ)
    (in_range : (max n : ℕ) (s : S) → (rand_int max s).1 ≡ some n → n < max)
    (wait : ℤ → S → S × Option GoError) where
  jitter_bounds :
      (m : ℕ) (s : S) → 1 ≤ m → (n : ℕ) × ((jitter rand_int wait (pos m) s).1 ≡ pos n) × (n ≤ m)
  unfolding jitter
  jitter_bounds m s h =
      let positive : leb_ℤ (pos m) (pos 0) ≡ false = ground arith in
      elim (Option-cases (rand_int m s).1) [
        | inl e ↦ (m / 2, rw (positive, jitter) (rw (e, jitter)), omega arith)
        | inr (n, e) ↦
            let below = in_range m n s e in (n, rw (positive, jitter) (rw (e, jitter)), omega arith)
      ]

  -- For the first 34 attempts the delay after an attempt lies between the base delay of 1s, 2s, 4s
  -- and so on, capped at 30s, and one and a half times that, whatever the random source returns;
  -- no int64 overflows.
  pub backoff_bounds :
      (attempt : ℕ) (s : S)
      → attempt < 34
      → (delay : ℕ) × ((backoff rand_int wait attempt s).1 ≡ pos delay)
        × (capped attempt ≤ delay)
        × (2 * delay ≤ 3 * capped attempt)
  unfolding backoff
  backoff_bounds attempt s h =
      let base = capped attempt in
      let (some_extra, most) = capped_bounds attempt h in
      let (extra, e, little) = jitter_bounds (base / 2) s some_extra in
      (
        base + extra,
        rw (base_delay_lem attempt h) (rw e (add_small base extra (omega arith))),
        omega arith,
        omega arith,
      )
