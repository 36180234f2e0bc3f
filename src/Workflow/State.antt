-- ===== src/Workflow/State.antt =====
-- internal/workflow/state.go: the state of a workflow and its JSON accumulator.
-- A Go map is a function from keys to values and `none` the nil map, so two maps with the same
-- entries are equal. A json.RawMessage is its parsed value: it comes from json.Marshal or
-- json.Unmarshal, so it is valid JSON. Arrays, objects and fractional numbers stand as the text that
-- a JSONB column gives for them, so texts that it does not tell apart are one.
pub mod Accumulator
use Prim.Native.Char.{Char, char}
use hbs_queue.Errors.{Result, ok, err, message, wrap}
use hbs_queue.Prelude.{
  ℕ, ◌-◌, List, [], ◌∷◌, String, Bool, true, false, ◌&&◌, Option, none, some, ◌++◌, Bytes, codes,
  if◌then◌else◌, str_eq, utf8,
}
use hbs_queue.Strings.{quote}
use hbs_queue.Prelude.Int.{ℤ, pos, negsuc, leb_ℤ, two_63}

pub data Json : Type 0 where
  null : Json
  bool : Bool → Json
  -- a number literal with no fraction and no exponent, and any other
  int : ℤ → Json
  real : Bytes → Json
  -- the text that a JSON string denotes, always valid: json.Unmarshal reads U+FFFD for an escape of
  -- half a surrogate pair
  str : String → Json
  arr : Bytes → Json
  obj : Bytes → Json

pub data Status : Type 0 where
  pending running completed failed : Status

abbrev pub Entries : Type 0
Entries = String → Option Json

-- map[string]json.RawMessage
abbrev pub Accumulator : Type 0
Accumulator = Option Entries

pub record WorkflowState : Type 0 where
  pub id : String
  pub job_id : ℕ
  pub workflow_type : String
  pub client_id : String
  pub order_id : String
  -- never negative: 0 in a new row, and i + 1 when the runner writes it
  pub current_step : ℕ
  pub status : Status
  pub error : Bytes
  pub accumulator : Accumulator
  pub created_at : ℕ
  pub updated_at : ℕ

-- s.Data[key]; a read of a nil map finds nothing
abbrev pub read : Accumulator → String → Option Json
read none key = none
read (some entries) key = entries key

-- json.Unmarshal into a string: null leaves the variable at "".
unmarshal_string : Json → Option String
unmarshal_string null = some ""
unmarshal_string (str v) = some v
unmarshal_string _ = none

abbrev pub fits_int64 : ℤ → Bool
fits_int64 n = leb_ℤ (negsuc (two_63 - 1)) n && leb_ℤ n (pos (two_63 - 1))

-- json.Unmarshal into an int: null leaves the variable at 0.
unmarshal_int : Json → Option ℤ
unmarshal_int null = some (pos 0)
unmarshal_int (int n) = if fits_int64 n then some n else none
unmarshal_int _ = none

-- The value and the flag that a getter returns.
abbrev pub with_flag {ℓ} : {A : Type ℓ} → A → Option A → A × Bool
with_flag zero_value none = (zero_value, false)
with_flag zero_value (some v) = (v, true)

unfoldable pub get_string : WorkflowState → String → String × Bool
unfolding unmarshal_string
get_string s key = elim (read s.accumulator key) [
  | none ↦ ("", false)
  | some raw ↦ with_flag "" (unmarshal_string raw)
]

unfoldable pub get_int : WorkflowState → String → ℤ × Bool
unfolding unmarshal_int
get_int s key = elim (read s.accumulator key) [
  | none ↦ (pos 0, false)
  | some raw ↦ with_flag (pos 0) (unmarshal_int raw)
]

-- A Go string piece by piece, as a range loop reads it: a character that is encoded in UTF-8, or a byte
-- that is part of none.
pub data Piece : Type 0 where
  rune : Char → Piece
  invalid_byte : ℕ → Piece

-- The text that json.Marshal writes for a string: U+FFFD stands for every invalid byte.
abbrev pub repair : List Piece → String
repair [] = ""
repair (rune c ∷ more) = String.◌∷◌ c (repair more)
repair (invalid_byte _ ∷ more) = String.◌∷◌ (char 0xFFFD tt) (repair more)

-- The Go values that a step stores; `unsupported` is one that json.Marshal refuses, such as a
-- channel, with the text of the refusal.
pub data GoValue : Type 0 where
  nil_value : GoValue
  bool_value : Bool → GoValue
  int_value : ℤ → GoValue
  string_value : List Piece → GoValue
  raw_value : Json → GoValue
  unsupported : Bytes → GoValue

-- json.Marshal
marshal : GoValue → Result Json
marshal nil_value = ok null
marshal (bool_value b) = ok (bool b)
marshal (int_value n) = ok (int n)
marshal (string_value v) = ok (str (repair v))
marshal (raw_value j) = ok j
marshal (unsupported why) = err (message why)

-- entries[key] = raw
abbrev update : Entries → String → Json → Entries
update entries key raw = λ k. if str_eq k key then some raw else entries k

-- make(map[string]json.RawMessage) where the map is nil
abbrev made : Accumulator → Entries
made none = λ _. none
made (some entries) = entries

-- The new state and the error, none for nil.
unfoldable pub set : WorkflowState → String → GoValue → Result WorkflowState
unfolding marshal
set s key value = elim (marshal value) [
  | err e ↦ err (wrap (codes "marshal " ++ (quote (utf8 key) ++ codes ": ")) e)
  | ok raw ↦ ok (record s { accumulator = some (update (made s.accumulator) key raw) })
]
