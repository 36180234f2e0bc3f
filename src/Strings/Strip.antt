-- ===== src/Strings/Strip.antt =====
-- Trimming ends: the length of the string is fuel enough.
use hbs_queue.Prelude.{
  ℕ, zero, suc, ◌-◌, ◌≤◌, ◌≡◌, [], ◌∷◌, arith, Bytes, length, drop, Bool-cases, inl, inr, ◌==◌,
  refl,
}
use hbs_queue.Strings.{strip, space_front, space_back}

length-drop : (n : ℕ) (s : Bytes) → length (drop n s) ≡ length s - n
length-drop zero s = omega arith
length-drop (suc n) [] = omega arith
length-drop (suc n) (c ∷ s) = ground (arith, length-drop n s)

-- With fuel for every byte, nothing that `space` measures is left at the front.
strip_stops :
    (space : Bytes → ℕ) (fuel : ℕ) (s : Bytes)
    → space [] ≡ 0
    → length s ≤ fuel
    → space (strip space fuel s) ≡ 0
unfolding strip
strip_stops space zero [] none h = none
strip_stops space zero (c ∷ s) none h = absurd (omega arith)
strip_stops space (suc fuel) s none h = elim (Bool-cases (space s == 0)) [
  | inl e ↦ rw (e, strip) (ground arith)
  | inr e ↦
      rw (e, strip)
        (strip_stops space fuel (drop (space s) s) none (ground (arith, length-drop (space s) s)))
]

strip-front : (s : Bytes) → space_front (strip space_front (length s) s) ≡ 0
unfolding space_front
strip-front s = strip_stops space_front (length s) s refl (omega arith)

strip-back : (s : Bytes) → space_back (strip space_back (length s) s) ≡ 0
unfolding space_back
strip-back s = strip_stops space_back (length s) s refl (omega arith)
