-- ===== src/Vcd/Errors.antt =====
-- internal/clients/vcd/errors.go: the classification of an error that may wrap an API error.
pub mod Retryable
use hbs_queue.Errors.{
  ApiError, GoError, message, not_found, no_rows, permanent, api, wrap, wrap_two,
}
use hbs_queue.Prelude.{Bool, true, false, Option, none, some}
use hbs_queue.Vcd.ApiError

abbrev or_else : Option ApiError → Option ApiError → Option ApiError
or_else (some a) b = some a
or_else none b = b

-- errors.As(err, &apiErr): the first API error of the chain, depth first
unfoldable pub as_api_error : GoError → Option ApiError
as_api_error (message m) = none
as_api_error not_found = none
as_api_error no_rows = none
as_api_error (permanent e) = as_api_error e
as_api_error (api a) = some a
as_api_error (wrap p e) = as_api_error e
as_api_error (wrap_two p e m f s) = or_else (as_api_error e) (as_api_error f)

unfoldable pub is_retryable : GoError → Bool
unfolding as_api_error ApiError.is_retryable
is_retryable err = elim (as_api_error err) [ some a ↦ ApiError.is_retryable a | none ↦ true ]

unfoldable pub is_not_found : GoError → Bool
unfolding as_api_error ApiError.is_not_found
is_not_found err = elim (as_api_error err) [ some a ↦ ApiError.is_not_found a | none ↦ false ]
