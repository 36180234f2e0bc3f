-- ===== src/Http/Handlers/Echo.antt =====
-- The echo endpoint.
use hbs_queue.Errors.{GoError, Result, ok, err, Result-cases}
use hbs_queue.Http.Handlers.{handle_echo}
use hbs_queue.Http.Message.{
  Request, Writer, Served, answered, echo_response, error_response, encode,
}
use hbs_queue.Http.Middleware.{context_id}
use hbs_queue.Http.Requests.{EchoRequest, Problems, echo_valid, decode_valid}
use hbs_queue.Prelude.{
  ◌≡◌, ◌≤◌, ◌<◌, refl, ◌⊎◌, inl, inr, Bool-cases, ltb, ltb→lt, Option, [], ◌∷◌, Bytes, codes,
  length, arith,
}

module _ {W : Type 0} (decode : Bytes → Option GoError → Result EchoRequest) (w : W) (r : Request)
    (writer : Writer) where
  abbrev pub EchoEnds : Served W → Type 0
  EchoEnds served =
      ((req : EchoRequest) × (decode r.body r.body_error ≡ ok req)
        × (1 ≤ length req.message)
        × (length req.message ≤ 1000)
        × (served ≡ answered w (encode 200 (echo_response req.message (context_id r)) writer)))
      ⊎ (((req : EchoRequest) × (decode r.body r.body_error ≡ ok req)
            × ((length req.message ≡ 0) ⊎ (1000 < length req.message))
            × (problems : Problems) × (served
                ≡ answered w
                    (encode 422 (error_response (codes "validation failed") problems) writer)))
          ⊎ ((e : GoError) × (decode r.body r.body_error ≡ err e)
              × (served
                  ≡ answered w (encode 400 (error_response (codes "invalid json") []) writer))))

  -- The echo endpoint answers 200 with the message and the request's ID exactly for a message of 1
  -- to 1000 bytes, 422 for an empty or a longer one, and 400 for a body that is not decoded.
  pub handle_echo_lem : EchoEnds (handle_echo decode w r writer)
  unfolding handle_echo decode_valid echo_valid
  handle_echo_lem = elim (Result-cases (decode r.body r.body_error)) [
    | inr (e, a) ↦ inr (inr (e, a, rw (a, decode_valid, handle_echo) refl))
    | inl (req, a) ↦ elim (Bool-cases (ltb 0 (length req.message))) [
      | inr b ↦ inr (
          inl (
            req,
            a,
            inl (ground arith),
            ("message", "required") ∷ [],
            rw (a, decode_valid, handle_echo) (rw (b, echo_valid) refl),
          ))
      | inl b ↦ elim (Bool-cases (ltb 1000 (length req.message))) [
        | inl c ↦ inr (
            inl (
              req,
              a,
              inr (ltb→lt 1000 (length req.message) c),
              ("message", "max 1000 characters") ∷ [],
              rw (a, decode_valid, handle_echo) (rw (b, echo_valid) (rw (c, echo_valid) refl)),
            ))
        | inr c ↦ inl (
          req,
          a,
          ltb→lt 0 (length req.message) b,
          ground arith,
          rw (a, decode_valid, handle_echo) (rw (b, echo_valid) (rw (c, echo_valid) refl)),
        )
      ]
    ]
  ]
