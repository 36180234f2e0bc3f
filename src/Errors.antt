-- ===== src/Errors.antt =====
-- Go's error values as this program builds and inspects them, and the result of a fallible call.
pub mod Text
use hbs_queue.Prelude.{◌≡◌, refl, ◌⊎◌, inl, inr, ℕ, String, Bool, true, false, ◌||◌, Bytes}

-- internal/clients/vcd/errors.go, APIError
pub record ApiError : Type 0 where
  pub status_code : ℕ
  pub body : Bytes
  pub method : String
  pub path : Bytes

-- `wrap p e` is `fmt.Errorf(p + "%w", e)`, and `wrap_two p e m f s` has two verbs.
pub data GoError : Type 0 where
  message : Bytes → GoError
  not_found : GoError
  no_rows : GoError
  permanent : GoError → GoError
  api : ApiError → GoError
  wrap : Bytes → GoError → GoError
  wrap_two : Bytes → GoError → Bytes → GoError → Bytes → GoError

pub data Result {ℓ} (A : Type ℓ) : Type ℓ where
  ok : A → Result A
  err : GoError → Result A

-- errors.Is(err, ErrNotFound)
unfoldable pub is_err_not_found : GoError → Bool
is_err_not_found (message m) = false
is_err_not_found not_found = true
is_err_not_found no_rows = false
is_err_not_found (permanent e) = is_err_not_found e
is_err_not_found (api a) = false
is_err_not_found (wrap p e) = is_err_not_found e
is_err_not_found (wrap_two p e m f s) = is_err_not_found e || is_err_not_found f

-- errors.Is(err, pgx.ErrNoRows)
unfoldable pub is_err_no_rows : GoError → Bool
is_err_no_rows (message m) = false
is_err_no_rows not_found = false
is_err_no_rows no_rows = true
is_err_no_rows (permanent e) = is_err_no_rows e
is_err_no_rows (api a) = false
is_err_no_rows (wrap p e) = is_err_no_rows e
is_err_no_rows (wrap_two p e m f s) = is_err_no_rows e || is_err_no_rows f

pub Result-cases {ℓ} :
    {A : Type ℓ} (r : Result A) → ((a : A) × (r ≡ ok a)) ⊎ ((e : GoError) × (r ≡ err e))
Result-cases (ok a) = inl (a, refl)
Result-cases (err e) = inr (e, refl)
