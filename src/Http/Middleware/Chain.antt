-- ===== src/Http/Middleware/Chain.antt =====
-- What the whole chain of NewServer does around the multiplexer.
use hbs_queue.Http.Message.{
  Request, Writer, Served, Handler, answered, header_value, set_header, http_error, send_status,
}
use hbs_queue.Http.Middleware.{
  LogLine, context_id, request_logger, panic_recovery, dev_cors, new_server,
}
use hbs_queue.Prelude.{
  ℕ, String, ◌≡◌, ◌≢◌, refl, ap, ◌∙◌, ◌⊎◌, inl, inr, true, false, none, some, Bytes, codes, arith,
  is_empty, if◌then◌else◌, str_eq, eq_iff, Bool-cases, Option-cases,
}

http_error_status :
    (message : Bytes) (code : ℕ) (v : Writer)
    → (http_error message code v).status ≡ (send_status code v).status
http_error_status message code v = elim (Option-cases v.status) [
  | inl e ↦ rw e refl
  | inr (sent, e) ↦ rw e refl
]

http_error_recorded :
    (message : Bytes) (code : ℕ) (v : Writer) → (http_error message code v).recorded ≡ code
http_error_recorded message code v = elim (Option-cases v.status) [
  | inl e ↦ rw e refl
  | inr (sent, e) ↦ rw e refl
]

module _ {W : Type 0} (log : LogLine → W → W) (mux : Handler W) (w : W) (r : Request)
    (writer : Writer) where
  abbrev below : Served W
  below = mux w r (record writer { recorded = 200 })

  abbrev line_of : ℕ → LogLine
  line_of status = record {
    method = r.method;
    path = r.path;
    status = status;
    request_id = context_id r;
  }

  -- The logger around the recovery, by how the handler below ends.
  logged_return :
      below.panicked ≡ false
      → request_logger log (panic_recovery mux) w r writer
        ≡ answered (log (line_of below.writer.recorded) below.world) below.writer
  unfolding request_logger panic_recovery
  logged_return e = rw (e, panic_recovery, request_logger) refl

  logged_panic :
      below.panicked ≡ true
      → request_logger log (panic_recovery mux) w r writer
        ≡ answered
            (log (line_of 500) below.world)
            (http_error (codes "Internal Server Error") 500 below.writer)
  unfolding request_logger panic_recovery
  logged_panic e =
      rw (e, panic_recovery, request_logger)
        (ap
          (λ k.
            answered (log (line_of k) below.world)
              (http_error (codes "Internal Server Error") 500 below.writer))
          (http_error_recorded (codes "Internal Server Error") 500 below.writer))

module _ {W : Type 0} (generate : W → W × Bytes) (log : LogLine → W → W) (mux : Handler W) (w : W)
    (r : Request) (writer : Writer) where
  -- The request ID: the caller's, or a new one.
  abbrev pub identified : W × Bytes
  identified =
      let given = header_value r.headers "X-Request-ID" in
      if is_empty given then generate w else (w, given)

  -- What the multiplexer is given in production.
  abbrev pub given_request : Request
  given_request = record r { request_id = some identified.1 }

  abbrev pub given_writer : Writer
  given_writer = record writer {
    headers = set_header "X-Request-ID" identified.1 writer.headers;
    recorded = 200;
  }

  abbrev pub inner : Served W
  inner = mux identified.0 given_request given_writer

  abbrev pub line : ℕ → LogLine
  line status = record {
    method = r.method;
    path = r.path;
    status = status;
    request_id = identified.1;
  }

  -- In production the multiplexer is called once, with the request's ID in the context and in the
  -- response's header; the server does not panic, and one line is logged, with that ID. Where the
  -- multiplexer returns, the response is its own, and the line has the status that was recorded
  -- last. Where it panics, the line has status 500, and so has the response unless a status was
  -- sent before, which then stays.
  pub new_server_prod :
      ((inner.panicked ≡ false)
        × (new_server generate log "prod" mux w r writer
            ≡ answered (log (line inner.writer.recorded) inner.world) inner.writer))
      ⊎ ((inner.panicked ≡ true)
          × (new_server generate log "prod" mux w r writer
              ≡ answered
                  (log (line 500) inner.world)
                  (http_error (codes "Internal Server Error") 500 inner.writer))
          × ((new_server generate log "prod" mux w r writer).writer.status
              ≡ (send_status 500 inner.writer).status))
  unfolding new_server
  new_server_prod = elim (Bool-cases inner.panicked) [
    | inl e ↦ inr (
      e,
      logged_panic log mux identified.0 given_request
          (record writer { headers = set_header "X-Request-ID" identified.1 writer.headers }) e,
      ap (λ v. v.writer.status)
            (logged_panic log mux identified.0 given_request
              (record writer { headers = set_header "X-Request-ID" identified.1 writer.headers }) e)
          ∙ http_error_status (codes "Internal Server Error") 500 inner.writer,
    )
    | inr e ↦ inl (
      e,
      logged_return log mux identified.0 given_request
          (record writer { headers = set_header "X-Request-ID" identified.1 writer.headers }) e,
    )
  ]

  -- Outside production a preflight request on a fresh response is answered with 204, no body and the
  -- request's ID; it does not reach the multiplexer, and nothing is logged.
  pub new_server_preflight :
      (env : String)
      → env ≢ "prod"
      → r.method ≡ "OPTIONS"
      → writer.status ≡ none
      → let served = new_server generate log env mux w r writer in
        (served.world ≡ identified.0)
        × (served.panicked ≡ false)
        × (served.writer.status ≡ some 204)
        × (served.writer.body ≡ writer.body)
        × (served.writer.sent_headers "X-Request-ID" ≡ some identified.1)
  unfolding new_server
  new_server_preflight env other options fresh =
      let outside : str_eq env "prod" ≡ false = ground (arith, eq_iff env "prod") in
      let asked : str_eq r.method "OPTIONS" ≡ true = ground (arith, eq_iff r.method "OPTIONS") in
      rw (outside, if◌then◌else◌) (rw (asked, dev_cors) (rw fresh (refl, refl, refl, refl, refl)))
