-- ===== src/Workflow/State/Accumulator.antt =====
-- Reading back what was set in the accumulator, and what the getters accept.
use mathlib.Core.Option.{some-injective}
use hbs_queue.Errors.{ok}
use hbs_queue.Prelude.{
  ◌≡◌, ◌↔◌, ◌⊎◌, refl, ap, inl, inr, true, false, String, Option, none, some, arith, if◌then◌else◌,
  str_eq, Option-cases, List, [], ◌∷◌,
}
use hbs_queue.Prelude.Int.{ℤ, pos}
use hbs_queue.Workflow.State.{
  Json, null, bool, int, real, str, arr, obj, WorkflowState, read, unmarshal_string, with_flag,
  Piece, rune, repair, fits_int64, get_string, get_int, string_value, int_value, made, update, set,
}

-- A value that was set is found under its key, and no other key is affected.
read-made :
    (a : Option (String → Option Json)) (key j : String) (raw : Json)
    → read (some (update (made a) key raw)) j ≡ (if str_eq j key then some raw else read a j)
read-made none key j raw = refl
read-made (some entries) key j raw = refl

-- A string with no invalid byte is written as it is.
pieces : String → List Piece
pieces String.[] = []
pieces (String.◌∷◌ c s) = rune c ∷ pieces s

repair-pieces : (v : String) → repair (pieces v) ≡ v
unfolding pieces
repair-pieces String.[] = refl
repair-pieces (String.◌∷◌ c s) = ap (String.◌∷◌ c) (repair-pieces s)

-- Setting a string succeeds, on a nil map too; afterwards GetString returns it, with U+FFFD for every
-- invalid byte and with the flag true, under its key and under any other key what it returned before, GetInt refuses the key and is
-- unchanged elsewhere, and nothing but the accumulator has changed.
set_string :
    (s : WorkflowState) (key : String) (v : List Piece)
    → (s' : WorkflowState) × (set s key (string_value v) ≡ ok s')
      × ((j : String)
          → get_string s' j ≡ (if str_eq j key then (repair v, true) else get_string s j))
      × ((j : String) → get_int s' j ≡ (if str_eq j key then (pos 0, false) else get_int s j))
      × (record s' { accumulator = s.accumulator } ≡ s)
unfolding set get_string get_int
set_string s key v = (
  record s { accumulator = some (update (made s.accumulator) key (str (repair v))) },
  refl,
  λ j. rw (read-made s.accumulator key j (str (repair v)), get_string) (ground arith),
  λ j. rw (read-made s.accumulator key j (str (repair v)), get_int) (ground arith),
  refl,
)

-- Setting an int that fits 64 bits succeeds, on a nil map too; afterwards GetInt returns it with
-- the flag true under its key and under any other key what it returned before, GetString refuses
-- the key and is unchanged elsewhere, and nothing but the accumulator has changed.
set_int :
    (s : WorkflowState) (key : String) (n : ℤ)
    → fits_int64 n ≡ true
    → (s' : WorkflowState) × (set s key (int_value n) ≡ ok s')
      × ((j : String) → get_int s' j ≡ (if str_eq j key then (n, true) else get_int s j))
      × ((j : String) → get_string s' j ≡ (if str_eq j key then ("", false) else get_string s j))
      × (record s' { accumulator = s.accumulator } ≡ s)
unfolding set get_string get_int
set_int s key n fits = (
  record s { accumulator = some (update (made s.accumulator) key (int n)) },
  refl,
  λ j. rw (read-made s.accumulator key j (int n), get_int) (ground arith),
  λ j. rw (read-made s.accumulator key j (int n), get_string) (ground arith),
  refl,
)

unmarshal_string-cases :
    (raw : Json)
    → ((with_flag "" (unmarshal_string raw)).1 ≡ true)
      ↔ ((raw ≡ null) ⊎ ((v : String) × (raw ≡ str v)))
unfolding unmarshal_string
unmarshal_string-cases null = ((λ h. inl refl), (λ h. refl))
unmarshal_string-cases (bool b) = ground arith
unmarshal_string-cases (int n) = ground arith
unmarshal_string-cases (real t) = ground arith
unmarshal_string-cases (str v) = ((λ h. inr (v, refl)), (λ h. refl))
unmarshal_string-cases (arr t) = ground arith
unmarshal_string-cases (obj t) = ground arith

-- GetString reports success exactly where the key holds a JSON string or the JSON null, which is no
-- string.
get_string_flag :
    (s : WorkflowState) (key : String)
    → ((get_string s key).1 ≡ true) ↔ (
        (read s.accumulator key ≡ some null)
        ⊎ ((v : String) × (read s.accumulator key ≡ some (str v))))
unfolding get_string
get_string_flag s key = elim (Option-cases (read s.accumulator key)) [
  | inl e ↦ rw (e, get_string) (ground arith)
  | inr (raw, e) ↦
      let c = unmarshal_string-cases raw in
      rw (e, get_string)
        (
          λ h. elim (c.0 h) [ inl x ↦ inl (ap some x) | inr (v, x) ↦ inr (v, ap some x) ],
          λ h. elim h [
            | inl x ↦ c.1 (inl (some-injective raw null x))
            | inr (v, x) ↦ c.1 (inr (v, some-injective raw (str v) x))
          ],
        )
]

-- A JSON string is read by GetString, and a JSON number that fits 64 bits by GetInt.
pub get_string_of_str :
    (s : WorkflowState) (key : String) {v : String}
    → read s.accumulator key ≡ some (str v)
    → get_string s key ≡ (v, true)
unfolding get_string
get_string_of_str s key found = rw (found, get_string) refl

pub get_int_of_int :
    (s : WorkflowState) (key : String) {n : ℤ}
    → fits_int64 n ≡ true
    → read s.accumulator key ≡ some (int n)
    → get_int s key ≡ (n, true)
unfolding get_int
get_int_of_int s key fits found = rw (found, get_int) (rw (fits, get_int) refl)
