-- ===== src/Http/Message.antt =====
-- What package net/http gives to a handler, as far as internal/httpapi uses it, and encode of
-- internal/httpapi/encode.go. A handler acts on an outside world in state `W`.
pub mod Status
use hbs_queue.Errors.{GoError}
use hbs_queue.Prelude.{
  ℕ, String, Bool, false, Option, none, some, List, [], ◌∷◌, ◌++◌, Bytes, codes, if◌then◌else◌,
  str_eq,
}

-- Header fields by their canonical name; one value each.
abbrev pub Headers : Type 0
Headers = String → Option Bytes

abbrev pub set_header : String → Bytes → Headers → Headers
set_header name value headers = λ n. if str_eq n name then some value else headers n

abbrev pub delete_header : String → Headers → Headers
delete_header name headers = λ n. if str_eq n name then none else headers n

-- Header.Get
abbrev pub header_value : Headers → String → Bytes
header_value headers name = elim (headers name) [ none ↦ [] | some value ↦ value ]

pub record Request : Type 0 where
  pub method : String
  pub path : Bytes
  pub headers : Headers
  -- what a read of the body gives before it ends or fails
  pub body : Bytes
  pub body_error : Option GoError
  -- the request ID in the context
  pub request_id : Option Bytes

-- The values that handlers encode (internal/httpapi/types.go).
pub data Reply : Type 0 where
  ready_response : (status : String) → Reply
  health_response : (status version commit build_time database : String) → Reply
  echo_response : (echo request_id : Bytes) → Reply
  job_accepted_response : (job_id : ℕ) (workflow_id : String) → Reply
  error_response : (error : Bytes) (problems : List (String × String)) → Reply

pub data Chunk : Type 0 where
  text : Bytes → Chunk
  json : Reply → Chunk

-- The response as it is written: `status` is none until a header was sent, and `recorded` is the
-- status of the statusWriter around it, which nothing outside the logger reads.
pub record Writer : Type 0 where
  pub headers : Headers
  pub status : Option ℕ
  pub sent_headers : Headers
  pub body : List Chunk
  pub recorded : ℕ

-- Only the first status is sent, with the header fields of that moment.
abbrev pub send_status : ℕ → Writer → Writer
send_status code w = elim w.status [
  | none ↦ record w { status = some code; sent_headers = w.headers }
  | some sent ↦ w
]

-- (*statusWriter).WriteHeader
abbrev pub write_header : ℕ → Writer → Writer
write_header code w = record (send_status code w) { recorded = code }

-- Write sends status 200 if none was sent.
abbrev pub write : Chunk → Writer → Writer
write chunk w = let sent = send_status 200 w in record sent { body = sent.body ++ chunk ∷ [] }

-- http.Error
abbrev pub http_error : Bytes → ℕ → Writer → Writer
http_error message code w = write (text (message ++ 10 ∷ [])) (
    write_header code (record w {
      headers = set_header "X-Content-Type-Options" (codes "nosniff") (
          set_header "Content-Type" (codes "text/plain; charset=utf-8")
            (delete_header "Content-Length" w.headers));
    }))

-- encode, whose values json.Encoder never refuses
abbrev pub encode : ℕ → Reply → Writer → Writer
encode code reply w = write (json reply) (
    write_header code
      (record w { headers = set_header "Content-Type" (codes "application/json") w.headers }))

-- What a call of a handler leaves; `panicked` tells whether the call ended in a panic.
pub record Served (W : Type 0) : Type 0 where
  pub world : W
  pub writer : Writer
  pub panicked : Bool

abbrev pub Handler : Type 0 → Type 0
Handler W = W → Request → Writer → Served W

-- A handler that has only written to the response.
abbrev pub answered : {W : Type 0} → W → Writer → Served W
answered w writer = record { world = w; writer = writer; panicked = false }
