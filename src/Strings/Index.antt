-- ===== src/Strings/Index.antt =====
-- What the search for a substring finds, and that ASCII lowering keeps positions.
use hbs_queue.Prelude.{
  ℕ, zero, suc, ◌+◌, ◌≤◌, ◌≡◌, refl, ap, inl, inr, true, some, [], ◌∷◌, map, arith, Bytes, length,
  drop, Bool-cases, Option-cases,
}
use hbs_queue.Strings.{has_prefix, index, lower_byte, is_ascii, to_lower}

pub has_prefix-length : (s p : Bytes) → has_prefix s p ≡ true → length p ≤ length s
unfolding has_prefix
has_prefix-length s [] h = omega arith
has_prefix-length [] (c ∷ cs) h = cc
has_prefix-length (b ∷ s) (c ∷ cs) h = ground (arith, has_prefix-length s cs)

-- A match lies inside the string.
pub index-bound : (s sub : Bytes) {i : ℕ} → index s sub ≡ some i → i + length sub ≤ length s
unfolding index
index-bound [] sub h = ground (arith, has_prefix-length [] sub)
index-bound (b ∷ s) sub {i} h = elim (Bool-cases (has_prefix (b ∷ s) sub)) [
  | inl here ↦ ground (arith, has_prefix-length (b ∷ s) sub here)
  | inr later ↦ elim (Option-cases (index s sub)) [
    | inl e ↦ ground arith
    | inr (j, e) ↦ ground (arith, index-bound s sub e)
  ]
]

-- The substring stands at the place found.
pub index-has_prefix :
    (s sub : Bytes) (i : ℕ) → index s sub ≡ some i → has_prefix (drop i s) sub ≡ true
unfolding index
index-has_prefix [] sub zero h = ground arith
index-has_prefix [] sub (suc i) h = ground arith
index-has_prefix (b ∷ s) sub zero h = elim (Bool-cases (has_prefix (b ∷ s) sub)) [
  | inl here ↦ here
  | inr later ↦ ground arith
]
index-has_prefix (b ∷ s) sub (suc i) h = elim (Bool-cases (has_prefix (b ∷ s) sub)) [
  | inl here ↦ ground arith
  | inr later ↦ elim (Option-cases (index s sub)) [
    | inl e ↦ ground arith
    | inr (j, e) ↦ index-has_prefix s sub i (ground arith)
  ]
]

pub to_lower_of_ascii :
    (unicode_lower : Bytes → Bytes) (s : Bytes)
    → is_ascii s ≡ true
    → to_lower unicode_lower s ≡ map lower_byte s
unfolding to_lower
to_lower_of_ascii unicode_lower s h = rw h

pub length-map_lower : (s : Bytes) → length (map lower_byte s) ≡ length s
length-map_lower [] = refl
length-map_lower (c ∷ s) = ap suc (length-map_lower s)

pub drop-map_lower : (n : ℕ) (s : Bytes) → drop n (map lower_byte s) ≡ map lower_byte (drop n s)
drop-map_lower zero s = refl
drop-map_lower (suc n) [] = refl
drop-map_lower (suc n) (c ∷ s) = drop-map_lower n s

pub is_ascii-drop : (n : ℕ) (s : Bytes) → is_ascii s ≡ true → is_ascii (drop n s) ≡ true
unfolding is_ascii
is_ascii-drop zero s h = h
is_ascii-drop (suc n) [] h = h
is_ascii-drop (suc n) (c ∷ s) h = is_ascii-drop n s (ground arith)
