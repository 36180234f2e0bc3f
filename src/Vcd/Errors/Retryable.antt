-- ===== src/Vcd/Errors/Retryable.antt =====
-- Which errors are worth a retry: the first API error that an error wraps decides.
use hbs_queue.Errors.{
  ApiError, GoError, message, not_found, no_rows, permanent, api, wrap, wrap_two,
}
use hbs_queue.Prelude.{
  ◌≡◌, ◌≢◌, ◌↔◌, refl, inl, inr, false, Option, none, some, List, [], ◌∷◌, ◌++◌, arith,
  Option-cases,
}
use hbs_queue.Vcd.ApiError
use hbs_queue.Vcd.Errors.{or_else, as_api_error, is_retryable}

-- The error and all that it wraps, in the order in which errors.As looks at them.
abbrev pub chain : GoError → List GoError
chain (message m) = message m ∷ []
chain not_found = not_found ∷ []
chain no_rows = no_rows ∷ []
chain (permanent e) = permanent e ∷ chain e
chain (api a) = api a ∷ []
chain (wrap p e) = wrap p e ∷ chain e
chain (wrap_two p e m f s) = wrap_two p e m f s ∷ (chain e ++ chain f)

abbrev pub first_api : List GoError → Option ApiError
first_api [] = none
first_api (api a ∷ es) = some a
first_api (message m ∷ es) = first_api es
first_api (not_found ∷ es) = first_api es
first_api (no_rows ∷ es) = first_api es
first_api (permanent e ∷ es) = first_api es
first_api (wrap p e ∷ es) = first_api es
first_api (wrap_two p e m f s ∷ es) = first_api es

first_api-append :
    (es fs : List GoError) → first_api (es ++ fs) ≡ or_else (first_api es) (first_api fs)
first_api-append [] fs = refl
first_api-append (api a ∷ es) fs = refl
first_api-append (message m ∷ es) fs = first_api-append es fs
first_api-append (not_found ∷ es) fs = first_api-append es fs
first_api-append (no_rows ∷ es) fs = first_api-append es fs
first_api-append (permanent e ∷ es) fs = first_api-append es fs
first_api-append (wrap p e ∷ es) fs = first_api-append es fs
first_api-append (wrap_two p e m f s ∷ es) fs = first_api-append es fs

as_api_error-chain : (e : GoError) → as_api_error e ≡ first_api (chain e)
unfolding as_api_error
as_api_error-chain (message m) = refl
as_api_error-chain not_found = refl
as_api_error-chain no_rows = refl
as_api_error-chain (permanent e) = as_api_error-chain e
as_api_error-chain (api a) = refl
as_api_error-chain (wrap p e) = as_api_error-chain e
as_api_error-chain (wrap_two p e m f s) =
    rw (first_api-append (chain e) (chain f))
      (rw (as_api_error-chain e) (rw (as_api_error-chain f)))

-- IsRetryable refuses an error exactly where it wraps an API error and the first one in the order
-- of errors.As has a status other than 429, 502, 503 and 504; every other error, a network failure
-- for one, is retryable.
is_retryable_lem :
    (e : GoError)
    → (is_retryable e ≡ false) ↔ (
        (a : ApiError) × (first_api (chain e) ≡ some a)
        × (a.status_code ≢ 429)
        × (a.status_code ≢ 502)
        × (a.status_code ≢ 503)
        × (a.status_code ≢ 504))
unfolding is_retryable ApiError.is_retryable
is_retryable_lem e = elim (Option-cases (as_api_error e)) [
  | inl none_there ↦
      rw (none_there, is_retryable)
        (
          λ h. cc,
          λ h. absurd (
              let (a, found, m, n, o, p) = h in
              let bad = rw (as_api_error-chain e) at none_there in cc),
        )
  | inr (a, there) ↦
      rw (there, is_retryable)
        (
          λ h. (
            a,
            rw (as_api_error-chain e) at there,
            ground arith,
            ground arith,
            ground arith,
            ground arith,
          ),
          λ h.
              let (b, found, m, n, o, p) = h in
              let same = rw (as_api_error-chain e) at there in ground arith,
        )
]
