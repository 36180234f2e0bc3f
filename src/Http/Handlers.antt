-- ===== src/Http/Handlers.antt =====
-- internal/httpapi/handlers.go and the handlers of the hooks, which are stubs. `ping` is the
-- pool's Ping.
pub mod Echo
use hbs_queue.Config.{Config}
use hbs_queue.Errors.{GoError, Result}
use hbs_queue.Http.Message.{
  Handler, answered, ready_response, health_response, echo_response, error_response, encode,
  http_error,
}
use hbs_queue.Http.Middleware.{context_id}
use hbs_queue.Http.Requests.{EchoRequest, echo_valid, checked, invalid, malformed, decode_valid}
use hbs_queue.Prelude.{String, Option, none, some, [], Bytes, codes}

module _ {W : Type 0} (ping : W → Option GoError) where
  unfoldable pub handle_ready : Handler W
  handle_ready w r writer = elim (ping w) [
    | some e ↦ answered w (encode 503 (ready_response "unavailable") writer)
    | none ↦ answered w (encode 200 (ready_response "ok") writer)
  ]

  unfoldable pub handle_health : Config → Handler W
  handle_health cfg w r writer =
      let db_status : String = elim (ping w) [ some e ↦ "down" | none ↦ "up" ] in
      answered w (
        encode 200 (health_response "healthy" cfg.version cfg.commit cfg.build_time db_status)
          writer)

module _ {W : Type 0} where
  unfoldable pub handle_echo : (Bytes → Option GoError → Result EchoRequest) → Handler W
  unfolding decode_valid echo_valid
  handle_echo decode w r writer = elim (decode_valid decode echo_valid r) [
    | invalid problems ↦
        answered w (encode 422 (error_response (codes "validation failed") problems) writer)
    | malformed e ↦ answered w (encode 400 (error_response (codes "invalid json") []) writer)
    | checked req ↦ answered w (encode 200 (echo_response req.message (context_id r)) writer)
  ]

  -- What each of the stubs answers.
  abbrev pub not_implemented : Handler W
  not_implemented w r writer = answered w (http_error (codes "Not Implemented") 501 writer)

  abbrev pub handle_deboard_org : Handler W
  handle_deboard_org = not_implemented

  abbrev pub handle_onboard_contact : Handler W
  handle_onboard_contact = not_implemented

  abbrev pub handle_deboard_contact : Handler W
  handle_deboard_contact = not_implemented

  abbrev pub handle_pw_change : Handler W
  handle_pw_change = not_implemented

  abbrev pub handle_bandwidth_update : Handler W
  handle_bandwidth_update = not_implemented
