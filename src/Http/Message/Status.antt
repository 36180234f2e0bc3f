-- ===== src/Http/Message/Status.antt =====
-- The status of a response that nothing was sent on before.
use hbs_queue.Http.Message.{Writer, Reply, encode, http_error}
use hbs_queue.Prelude.{ℕ, ◌≡◌, ◌≢◌, none, some, Bytes, arith}

pub encode_not_202 :
    (code : ℕ) (reply : Reply) (v : Writer)
    → v.status ≡ none
    → code ≢ 202
    → (encode code reply v).status ≢ some 202
encode_not_202 code reply v fresh other = rw fresh (λ h. ground arith)

pub http_error_not_202 :
    (message : Bytes) (code : ℕ) (v : Writer)
    → v.status ≡ none
    → code ≢ 202
    → (http_error message code v).status ≢ some 202
http_error_not_202 message code v fresh other = rw fresh (λ h. ground arith)
