-- ===== src/Strings.antt =====
-- The functions of Go's package strings that the program calls, over the bytes of a Go string.
-- The case tables of Unicode are a parameter, `unicode_lower`: what `strings.ToLower` makes of a
-- string that is not pure ASCII.
pub mod Index
pub mod Strip
use mathlib.Core.List.{reverse}
use hbs_queue.Prelude.{
  ℕ, zero, suc, ◌+◌, ◌-◌, ◌/◌, ◌%◌, Bool, true, false, ◌&&◌, ◌||◌, Option, none, some, List, [],
  ◌∷◌, ◌++◌, map, Bytes, ltb, leb, ◌==◌, if◌then◌else◌, length, take, drop,
}

-- strings.HasPrefix
unfoldable pub has_prefix : Bytes → Bytes → Bool
has_prefix s [] = true
has_prefix [] (c ∷ cs) = false
has_prefix (b ∷ s) (c ∷ cs) = b == c && has_prefix s cs

-- strings.Index: the first place at which `sub` stands in `s`; none for -1
unfoldable pub index : Bytes → Bytes → Option ℕ
unfolding has_prefix
index [] sub = if has_prefix [] sub then some 0 else none
index (b ∷ s) sub =
    let rest = index s sub in
    if has_prefix (b ∷ s) sub then some 0 else (elim rest [ none ↦ none | some i ↦ some (suc i) ])

-- strings.Contains
unfoldable pub contains : Bytes → Bytes → Bool
unfolding index
contains s sub = elim (index s sub) [ none ↦ false | some i ↦ true ]

abbrev pub lower_byte : ℕ → ℕ
lower_byte c = if leb b'A' c && leb c b'Z' then c + 32 else c

unfoldable pub is_ascii : Bytes → Bool
is_ascii [] = true
is_ascii (c ∷ cs) = ltb c 128 && is_ascii cs

-- strings.ToLower
unfoldable pub to_lower : (Bytes → Bytes) → Bytes → Bytes
unfolding is_ascii
to_lower unicode_lower s = if is_ascii s then map lower_byte s else unicode_lower s

-- s[from:]; a Go slice past the end panics, here none
unfoldable pub slice_from : Bytes → ℕ → Option Bytes
slice_from s from = if leb from (length s) then some (drop from s) else none

-- s[from:to]
unfoldable pub slice : Bytes → ℕ → ℕ → Option Bytes
slice s from to = if leb from to && leb to (length s) then some (drop from (take to s)) else none

abbrev is_ascii_space : ℕ → Bool
is_ascii_space c = c == 32 || leb 9 c && leb c 13

-- The last byte of a three-byte space: U+1680, U+2000 to U+200A, U+2028, U+2029, U+202F, U+205F
-- and U+3000.
abbrev is_wide_space : ℕ → ℕ → ℕ → Bool
is_wide_space a b c =
    a == 0xe1 && b == 0x9a && c == 0x80
    || a == 0xe2 && b == 0x80 && (leb 0x80 c && leb c 0x8a || c == 0xa8 || c == 0xa9 || c == 0xaf)
    || a == 0xe2 && b == 0x81 && c == 0x9f
    || a == 0xe3 && b == 0x80 && c == 0x80

-- The bytes of the white space character at the front, 0 if there is none.
space_front : Bytes → ℕ
space_front [] = 0
space_front (a ∷ []) = if is_ascii_space a then 1 else 0
space_front (a ∷ b ∷ []) =
    if is_ascii_space a then 1 else if a == 0xc2 && (b == 0x85 || b == 0xa0) then 2 else 0
space_front (a ∷ b ∷ c ∷ s) =
    if is_ascii_space a
    then 1
    else if a == 0xc2 && (b == 0x85 || b == 0xa0)
    then 2
    else if is_wide_space a b c
    then 3
    else 0

-- The same at the back, of the reversed string.
space_back : Bytes → ℕ
space_back [] = 0
space_back (a ∷ []) = if is_ascii_space a then 1 else 0
space_back (b ∷ a ∷ []) =
    if is_ascii_space b then 1 else if a == 0xc2 && (b == 0x85 || b == 0xa0) then 2 else 0
space_back (c ∷ b ∷ a ∷ s) =
    if is_ascii_space c
    then 1
    else if b == 0xc2 && (c == 0x85 || c == 0xa0)
    then 2
    else if is_wide_space a b c
    then 3
    else 0

-- Drops what `space` measures at the front until there is none; the fuel is the length.
strip : (Bytes → ℕ) → ℕ → Bytes → Bytes
strip space zero s = s
strip space (suc fuel) s =
    let shorter = strip space fuel (drop (space s) s) in if space s == 0 then s else shorter

-- strings.TrimSpace
unfoldable pub trim_space : Bytes → Bytes
unfolding strip space_front space_back
trim_space s =
    let t = strip space_front (length s) s in reverse (strip space_back (length t) (reverse t))

unfoldable pub split_from : ℕ → Bytes → Bytes → List Bytes
split_from sep cur [] = cur ∷ []
split_from sep cur (c ∷ s) =
    let here = cur ∷ split_from sep [] s in
    let later = split_from sep (cur ++ c ∷ []) s in if c == sep then here else later

-- strings.Split for a separator of one byte
unfoldable pub split : Bytes → ℕ → List Bytes
unfolding split_from
split s sep = split_from sep [] s

abbrev hex_digit : ℕ → ℕ
hex_digit d = if ltb d 10 then b'0' + d else b'a' + (d - 10)

-- The letter of a short escape for a control character, as in `\n`.
abbrev short_escape : ℕ → Option ℕ
short_escape c =
    if c == 7
    then some b'a'
    else if c == 8
    then some b'b'
    else if c == 9
    then some b't'
    else if c == 10
    then some b'n'
    else if c == 11
    then some b'v'
    else if c == 12
    then some b'f'
    else if c == 13
    then some b'r'
    else none

quote_byte : ℕ → Bytes
quote_byte c = elim (short_escape c) [
  | some letter ↦ 92 ∷ letter ∷ []
  | none ↦
      if c == 34 || c == 92
      then 92 ∷ c ∷ []
      else if ltb c 32 || c == 127
      then 92 ∷ b'x' ∷ hex_digit (c / 16) ∷ hex_digit (c % 16) ∷ []
      else c ∷ []
]

quote_bytes : Bytes → Bytes
quote_bytes [] = 34 ∷ []
quote_bytes (c ∷ s) = quote_byte c ++ quote_bytes s

-- fmt's verb %q; a character beyond ASCII is kept as it is, printable or not.
unfoldable pub quote : Bytes → Bytes
unfolding quote_byte quote_bytes
quote s = 34 ∷ quote_bytes s
