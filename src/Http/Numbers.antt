-- ===== src/Http/Numbers.antt =====
-- The numbers of a webhook header: strconv.ParseInt, package time's arithmetic, and
-- hex.EncodeToString.
pub mod Freshness
pub mod Decimal
use hbs_queue.Prelude.{
  ℕ, ◌+◌, ◌-◌, ◌*◌, ◌/◌, ◌%◌, Bool, true, false, ◌&&◌, Option, none, some, [], ◌∷◌, Bytes, ltb, leb,
  ◌==◌, if◌then◌else◌,
}
use hbs_queue.Prelude.Int.{ℤ, pos, negsuc, pos_part, neg_part, sub_ℕ, ltb_ℤ, add_int64, two_63}

-- The value of decimal digits, of which there must be one.
digits : ℕ → Bytes → Option ℕ
digits n [] = some n
digits n (c ∷ s) =
    let rest = digits (n * 10 + (c - b'0')) s in if leb b'0' c && leb c b'9' then rest else none

unsigned : Bytes → Option ℕ
unfolding digits
unsigned [] = none
unsigned (c ∷ s) = digits 0 (c ∷ s)

-- strconv.ParseInt(s, 10, 64); none for an error
unfoldable pub parse_int : Bytes → Option ℤ
unfolding unsigned
parse_int [] = none
parse_int (c ∷ s) =
    if c == b'-'
    then (elim (unsigned s) [
      | none ↦ none
      | some n ↦ if leb n two_63 then some (sub_ℕ 0 n) else none
    ])
    else (elim (unsigned (if c == b'+' then s else c ∷ s)) [
      | none ↦ none
      | some n ↦ if ltb n two_63 then some (pos n) else none
    ])

abbrev pub sub_ℤ : ℤ → ℤ → ℤ
sub_ℤ a b = sub_ℕ (pos_part a + neg_part b) (pos_part b + neg_part a)

abbrev pub scale : ℕ → ℤ → ℤ
scale k a = sub_ℕ (k * pos_part a) (k * neg_part a)

-- time.Unix(ts, 0) counts the seconds from the year 1 on, in an int64 that wraps.
abbrev pub unix_to_internal : ℕ
unix_to_internal = 62135596800

abbrev pub unix_seconds : ℤ → ℤ
unix_seconds ts = sub_ℤ (add_int64 ts (pos unix_to_internal)) (pos unix_to_internal)

-- A Duration saturates.
abbrev pub saturate : ℤ → ℤ
saturate d =
    if ltb_ℤ (pos (two_63 - 1)) d
    then pos (two_63 - 1)
    else if ltb_ℤ d (negsuc (two_63 - 1))
    then negsuc (two_63 - 1)
    else d

-- time.Since(time.Unix(ts, 0)) where the clock shows `now`, in nanoseconds since 1970
abbrev pub since_unix : ℤ → ℤ → ℤ
since_unix now ts = saturate (sub_ℤ now (scale 1000000000 (unix_seconds ts)))

abbrev hex_char : ℕ → ℕ
hex_char d = if ltb d 10 then b'0' + d else b'a' + (d - 10)

-- hex.EncodeToString
unfoldable pub hex : Bytes → Bytes
hex [] = []
hex (b ∷ s) = hex_char (b / 16) ∷ hex_char (b % 16) ∷ hex s

-- subtle.ConstantTimeCompare(a, b) == 1
unfoldable pub same_bytes : Bytes → Bytes → Bool
same_bytes [] [] = true
same_bytes [] (b ∷ bs) = false
same_bytes (a ∷ rest) [] = false
same_bytes (a ∷ rest) (b ∷ bs) = a == b && same_bytes rest bs
