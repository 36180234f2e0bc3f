-- ===== src/Http/Middleware.antt =====
-- internal/httpapi/middleware.go, and the order in which internal/httpapi/server.go applies it.
-- Parameters: the clock, the source of random request IDs and the log, as parts of the world, and
-- HMAC-SHA256.
pub mod Auth
pub mod Chain
use hbs_queue.Http.Message.{
  Request, Writer, Served, Handler, answered, set_header, header_value, write_header, http_error,
}
use hbs_queue.Http.Numbers.{parse_int, since_unix, hex, same_bytes}
use hbs_queue.Prelude.{
  ℕ, ◌*◌, String, true, false, ◌||◌, none, some, [], ◌++◌, Bytes, codes, is_empty, if◌then◌else◌,
  str_eq,
}
use hbs_queue.Prelude.Int.{ℤ, pos, ltb_ℤ}

-- The line of a finished request; the duration is left out.
pub record LogLine : Type 0 where
  pub method : String
  pub path : Bytes
  pub status : ℕ
  pub request_id : Bytes

-- RequestID
abbrev pub context_id : Request → Bytes
context_id r = elim r.request_id [ none ↦ [] | some id ↦ id ]

abbrev pub webhook_timestamp_tolerance : ℕ
webhook_timestamp_tolerance = 60 * 1000000000

module _ {W : Type 0} where
  abbrev pub unauthorized : W → Writer → Served W
  unauthorized w writer = answered w (http_error (codes "unauthorized") 401 writer)

  unfoldable pub request_id : (W → W × Bytes) → Handler W → Handler W
  request_id generate next w r writer =
      let given = header_value r.headers "X-Request-ID" in
      let (w', id) = if is_empty given then generate w else (w, given) in
      next w' (record r { request_id = some id })
        (record writer { headers = set_header "X-Request-ID" id writer.headers })

  -- generateID, over crypto/rand's Read of 16 bytes
  abbrev pub generate_id : (W → W × Bytes) → W → W × Bytes
  generate_id read w = let (w', bytes) = read w in (w', hex bytes)

  unfoldable pub request_logger : (LogLine → W → W) → Handler W → Handler W
  request_logger log next w r writer =
      let served = next w r (record writer { recorded = 200 }) in
      if served.panicked then served else record served {
        world =
            log
              (record {
                method = r.method;
                path = r.path;
                status = served.writer.recorded;
                request_id = context_id r;
              })
              served.world;
      }

  unfoldable pub panic_recovery : Handler W → Handler W
  panic_recovery next w r writer =
      let served = next w r writer in
      if served.panicked
      then answered served.world (http_error (codes "Internal Server Error") 500 served.writer)
      else served

  unfoldable pub dev_cors : Handler W → Handler W
  dev_cors next w r writer =
      let opened = record writer {
        headers =
            set_header "Access-Control-Allow-Headers"
              (codes "Content-Type, X-API-Key, X-Request-ID")
              (set_header "Access-Control-Allow-Methods" (codes "GET, POST, PUT, DELETE, OPTIONS")
                (set_header "Access-Control-Allow-Origin" (codes "*") writer.headers));
      } in
      elim (str_eq r.method "OPTIONS") [
        | true ↦ answered w (write_header 204 opened)
        | false ↦ next w r opened
      ]

  unfoldable pub api_key_auth : Bytes → Handler W → Handler W
  unfolding same_bytes
  api_key_auth expected_key next w r writer = elim (is_empty expected_key) [
    | true ↦ unauthorized w writer
    | false ↦ elim (same_bytes (header_value r.headers "X-API-Key") expected_key) [
      | false ↦ unauthorized w writer
      | true ↦ next w r writer
    ]
  ]

  module _ (hmac : Bytes → Bytes → Bytes) (now : W → ℤ) where
    -- From the buffered body on.
    unfoldable pub check_signature : Bytes → Handler W → Handler W
    unfolding hex same_bytes
    check_signature secret next w r writer = elim r.body_error [
      | some e ↦ answered w (http_error (codes "bad request") 400 writer)
      | none ↦
          elim (same_bytes (header_value r.headers "HB-Signature")
            (hex (hmac secret (header_value r.headers "HB-Timestamp" ++ r.body)))) [
              | false ↦ unauthorized w writer
              | true ↦ next w r writer
            ]
    ]

    unfoldable pub webhook_auth : Bytes → Handler W → Handler W
    unfolding parse_int check_signature
    webhook_auth secret next w r writer = elim (is_empty secret) [
      | true ↦ unauthorized w writer
      | false ↦
          elim (is_empty (header_value r.headers "HB-Timestamp")
            || is_empty (header_value r.headers "HB-Signature")) [
              | true ↦ unauthorized w writer
              | false ↦ elim (parse_int (header_value r.headers "HB-Timestamp")) [
                | none ↦ unauthorized w writer
                | some ts ↦ elim (ltb_ℤ (pos webhook_timestamp_tolerance) (since_unix (now w) ts)) [
                  | true ↦ unauthorized w writer
                  | false ↦ check_signature secret next w r writer
                ]
              ]
            ]
    ]

  -- NewServer around the multiplexer.
  unfoldable pub new_server :
      (W → W × Bytes) → (LogLine → W → W) → (env : String) → Handler W → Handler W
  unfolding request_id request_logger panic_recovery dev_cors
  new_server generate log env mux = request_id generate (
      if str_eq env "prod"
      then request_logger log (panic_recovery mux)
      else dev_cors (request_logger log (panic_recovery mux)))
