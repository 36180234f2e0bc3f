-- ===== src/Http/Routes.antt =====
-- internal/httpapi/routes.go: the table of addRoutes. How the multiplexer picks a row is net/http's.
pub mod Closed
use hbs_queue.Config.{Config}
use hbs_queue.Errors.{GoError, Result}
use hbs_queue.Http.Handlers.{
  handle_ready, handle_health, handle_echo, handle_deboard_org, handle_onboard_contact,
  handle_deboard_contact, handle_pw_change, handle_bandwidth_update,
}
use hbs_queue.Http.Message.{Handler}
use hbs_queue.Http.Middleware.{api_key_auth, webhook_auth}
use hbs_queue.Http.Requests.{EchoRequest}
use hbs_queue.Prelude.{String, Option, List, [], ◌∷◌, Bytes, utf8}
use hbs_queue.Prelude.Int.{ℤ}

pub record Route (W : Type 0) : Type 0 where
  pub pattern : String
  pub handler : Handler W

module _ {W : Type 0} (ping : W → Option GoError)
    (decode_echo : Bytes → Option GoError → Result EchoRequest) (hmac : Bytes → Bytes → Bytes)
    (now : W → ℤ) (handle_onboard_org : Handler W) where
  abbrev with_api_key : Config → Handler W → Handler W
  with_api_key cfg = api_key_auth (utf8 cfg.api_key)

  abbrev hook : String → Handler W → Handler W
  hook secret = webhook_auth hmac now (utf8 secret)

  unfoldable pub add_routes : Config → List (Route W)
  unfolding handle_ready handle_health handle_echo api_key_auth webhook_auth
  add_routes cfg =
      record { pattern = "GET /ready"; handler = handle_ready ping }
      ∷ record { pattern = "GET /health"; handler = handle_health ping cfg }
      ∷ record {
        pattern = "POST /api/v1/echo";
        handler = with_api_key cfg (handle_echo decode_echo);
      }
      ∷ record {
        pattern = "POST /api/v1/script/onboard-org";
        handler = with_api_key cfg handle_onboard_org;
      }
      ∷ record {
        pattern = "POST /hooks/deboard-org";
        handler = hook cfg.hooks.deboard_org handle_deboard_org;
      }
      ∷ record {
        pattern = "POST /hooks/onboard-contact";
        handler = hook cfg.hooks.onboard_contact handle_onboard_contact;
      }
      ∷ record {
        pattern = "POST /hooks/deboard-contact";
        handler = hook cfg.hooks.deboard_contact handle_deboard_contact;
      }
      ∷ record {
        pattern = "POST /hooks/update-pw";
        handler = hook cfg.hooks.update_pw handle_pw_change;
      }
      ∷ record {
        pattern = "POST /hooks/update-bandwidth";
        handler = hook cfg.hooks.update_bandwidth handle_bandwidth_update;
      }
      ∷ []
