-- ===== src/Errors/Text.antt =====
-- The method Error of each error of the program; none where it panics.
use hbs_queue.Errors.{GoError, message, not_found, no_rows, permanent, api, wrap, wrap_two}
use hbs_queue.Prelude.{Option, none, some, ◌++◌, Bytes, codes}
use hbs_queue.Vcd.ApiError.{api_error_text}

-- fmt prints an operand whose Error panics as a note of the panic, here without the two bounds that
-- the note ends in.
unfoldable pub formatted : Option Bytes → Bytes
formatted none = codes "%!v(PANIC=Error method: runtime error: slice bounds out of range)"
formatted (some text) = text

-- (*PermanentError).Error and its like prefix the text of the cause.
abbrev prefixed : Bytes → Option Bytes → Option Bytes
prefixed p none = none
prefixed p (some text) = some (p ++ text)

-- err.Error()
unfoldable pub error_text : (Bytes → Bytes) → GoError → Option Bytes
unfolding formatted api_error_text
error_text lower (message m) = some m
error_text lower not_found = some (codes "workflow state not found")
error_text lower no_rows = some (codes "no rows in result set")
error_text lower (permanent e) = prefixed (codes "permanent: ") (error_text lower e)
error_text lower (api a) = api_error_text lower a
error_text lower (wrap p e) = some (p ++ formatted (error_text lower e))
error_text lower (wrap_two p e m f s) =
    some (p ++ (formatted (error_text lower e) ++ (m ++ (formatted (error_text lower f) ++ s))))
