-- ===== src/Scenarios/Http.antt =====
-- Requests: a key, a signed webhook, a handler that panics, a preflight.
use hbs_queue.Http.Message.{
  Headers, Request, Writer, Handler, answered, set_header, header_value, http_error, send_status,
  text, write,
}
use hbs_queue.Http.Middleware.Auth.{api_key_auth_lem, IsSigned, Refused, webhook_auth_lem}
use hbs_queue.Http.Middleware.Chain.{inner, line, new_server_prod, new_server_preflight}
use hbs_queue.Http.Middleware.{
  LogLine, webhook_timestamp_tolerance, api_key_auth, webhook_auth, new_server,
}
use hbs_queue.Http.Numbers.Freshness.{since_unix_lem}
use hbs_queue.Http.Numbers.{since_unix, unix_to_internal}
use hbs_queue.Prelude.{
  ◌+◌, ◌*◌, ◌<◌, ◌≤◌, ◌≡◌, ◌≢◌, ◌↔◌, ◌⊎◌, refl, String, true, false, none, some, List, [], ◌∷◌,
  Bytes, codes, arith, eq_iff,
}
use hbs_queue.Prelude.Int.{ℤ, pos, ◌≤ℤ◌, two_63}

-- The world is the log.
abbrev Log : Type 0
Log = List LogLine

abbrev log : LogLine → Log → Log
log l w = l ∷ w

abbrev fresh_id : Log → Log × Bytes
fresh_id w = (w, codes "c0ffee")

abbrev blank : Writer
blank = record {
  headers = λ n. none;
  status = none;
  sent_headers = λ n. none;
  body = [];
  recorded = 0;
}

abbrev sent_with : String → Headers → Request
sent_with method headers = record {
  method = method;
  path = codes "/hooks/update-pw";
  headers = headers;
  body = codes "{}";
  body_error = none;
  request_id = none;
}

abbrev keyed : Request
keyed = sent_with "POST" (set_header "X-API-Key" (codes "k1") (λ n. none))

abbrev hello : Handler Log
hello w r writer = answered w (write (text (codes "hello")) writer)

api_key_auth_lem_example :
    ((codes "k1" ≢ [])
      × (header_value keyed.headers "X-API-Key" ≡ codes "k1")
      × (api_key_auth (codes "k1") hello [] keyed blank ≡ hello [] keyed blank))
    ⊎ (((codes "k1" ≡ []) ⊎ (header_value keyed.headers "X-API-Key" ≢ codes "k1"))
        × (api_key_auth (codes "k1") hello [] keyed blank
            ≡ answered [] (http_error (codes "unauthorized") 401 blank)))
api_key_auth_lem_example = api_key_auth_lem hello [] keyed blank (codes "k1")

-- A stand-in for the keyed hash.
abbrev hash : Bytes → Bytes → Bytes
hash key message = key

abbrev now : Log → ℤ
now w = pos 1700000030000000000

abbrev signed : Request
signed = sent_with "POST" (
    set_header "HB-Timestamp" (codes "1700000000")
      (set_header "HB-Signature" (codes "7331") (λ n. none)))

webhook_auth_lem_example :
    (IsSigned hello [] signed blank hash now (codes "s1")
      × (webhook_auth hash now (codes "s1") hello [] signed blank ≡ hello [] signed blank))
    ⊎ ((¬ IsSigned hello [] signed blank hash now (codes "s1"))
        × Refused hello [] signed blank hash now
            (codes "s1")
            (webhook_auth hash now (codes "s1") hello [] signed blank))
webhook_auth_lem_example = webhook_auth_lem hello [] signed blank hash now (codes "s1")

-- It is the first case: the handler is reached.
signed_webhook : webhook_auth hash now (codes "s1") hello [] signed blank ≡ hello [] signed blank
unfolding webhook_auth
signed_webhook = refl

since_unix_lem_example :
    (since_unix (pos 1700000030000000000) (pos 1700000000) ≤ℤ pos webhook_timestamp_tolerance) ↔ (
      (1700000000 + unix_to_internal < two_63)
      × (1700000030000000000 ≤ (1700000000 + 60) * 1000000000))
since_unix_lem_example = since_unix_lem 1700000030000000000 1700000000 (omega arith)

-- A handler that writes a reply and then panics.
abbrev broken : Handler Log
broken w r writer = record {
  world = w;
  writer = write (text (codes "part")) writer;
  panicked = true;
}

new_server_prod_example :
    ((inner fresh_id log broken [] keyed blank).panicked ≡ false)
      × (new_server fresh_id log "prod" broken [] keyed blank
          ≡ answered
              (log
                (line fresh_id log broken [] keyed blank
                  (inner fresh_id log broken [] keyed blank).writer.recorded)
                (inner fresh_id log broken [] keyed blank).world)
              (inner fresh_id log broken [] keyed blank).writer)
    ⊎ (((inner fresh_id log broken [] keyed blank).panicked ≡ true)
        × (new_server fresh_id log "prod" broken [] keyed blank
            ≡ answered
                (log
                  (line fresh_id log broken [] keyed blank 500)
                  (inner fresh_id log broken [] keyed blank).world)
                (http_error
                  (codes "Internal Server Error")
                  500
                  (inner fresh_id log broken [] keyed blank).writer))
        × ((new_server fresh_id log "prod" broken [] keyed blank).writer.status
            ≡ (send_status 500 (inner fresh_id log broken [] keyed blank).writer).status))
new_server_prod_example = new_server_prod fresh_id log broken [] keyed blank

abbrev preflight : Request
preflight = sent_with "OPTIONS" (λ n. none)

is_dev : (env : String) → env ≡ "dev" → env ≢ "prod"
is_dev env e h = ground (arith, eq_iff "dev" "prod")

new_server_preflight_example :
    let served = new_server fresh_id log "dev" hello [] preflight blank in
    (served.world ≡ [])
    × (served.panicked ≡ false)
    × (served.writer.status ≡ some 204)
    × (served.writer.body ≡ [])
    × (served.writer.sent_headers "X-Request-ID" ≡ some (codes "c0ffee"))
new_server_preflight_example =
    new_server_preflight fresh_id log hello [] preflight blank "dev" (is_dev "dev" refl) refl refl
