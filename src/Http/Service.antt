-- ===== src/Http/Service.antt =====
-- internal/httpapi/server.go, NewServer: the routes behind the multiplexer and the middleware around
-- it. The multiplexer is a parameter.
pub mod Guarded
pub mod Layers
pub mod Keyless
use mathlib.Core.List.{Memᴰ}
use hbs_queue.Config.{Config}
use hbs_queue.Errors.{GoError, Result}
use hbs_queue.Http.Message.{Request, Writer, Handler}
use hbs_queue.Http.Middleware.{LogLine, generate_id, new_server}
use hbs_queue.Http.Requests.{EchoRequest}
use hbs_queue.Http.Routes.{Route, add_routes}
use hbs_queue.Prelude.{◌≡◌, ◌≢◌, ◌⊎◌, Option, none, some, List, Bytes}
use hbs_queue.Prelude.Int.{ℤ}

-- What the handlers act on: the backend of the orders, and beside it the clock, the source of
-- random bytes and the log.
pub record World (B R : Type 0) : Type 0 where
  pub backend : B
  pub rest : R

abbrev pub on_backend : {B R : Type 0} → Handler B → Handler (World B R)
on_backend handler w r writer =
    let served = handler w.backend r writer in
    record {
      world = record w { backend = served.world };
      writer = served.writer;
      panicked = served.panicked;
    }

-- Documented behaviour of http.ServeMux: a request is handed to the handler of one of the routes, or
-- it is answered with 404, 405 or a redirect.
pub record MuxLaws {W : Type 0} (serve_mux : List (Route W) → Handler W) : Type 0 where
  pub dispatches :
      (table : List (Route W)) (w : W) (r : Request) (writer : Writer)
      → ((route : Route W) × Memᴰ route table
          × (serve_mux table w r writer ≡ route.handler w r writer))
        ⊎ (((serve_mux table w r writer).world ≡ w)
            × (writer.status ≡ none → (serve_mux table w r writer).writer.status ≢ some 202))

module _ {B R : Type 0} where
  abbrev pub generate : (R → R × Bytes) → World B R → World B R × Bytes
  generate read w = let (rest, id) = generate_id read w.rest in (record w { rest = rest }, id)

  abbrev pub write_log : (LogLine → R → R) → LogLine → World B R → World B R
  write_log log line w = record w { rest = log line w.rest }

  module _ (now : R → ℤ) (ping : B → Option GoError)
      (decode_echo : Bytes → Option GoError → Result EchoRequest) (hmac : Bytes → Bytes → Bytes)
      (onboard : Handler B) where
    abbrev pub routes : Config → List (Route (World B R))
    routes cfg =
        add_routes (λ w. ping w.backend) decode_echo hmac (λ w. now w.rest) (on_backend onboard) cfg

    unfoldable pub service :
        (List (Route (World B R)) → Handler (World B R))
        → (R → R × Bytes)
        → (LogLine → R → R)
        → Config
        → Handler (World B R)
    service serve_mux read log cfg =
        new_server (generate read) (write_log log) cfg.env (serve_mux (routes cfg))
