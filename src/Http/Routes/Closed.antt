-- ===== src/Http/Routes/Closed.antt =====
-- An unconfigured service is closed.
use hbs_queue.Config.{BuildInfo, load}
use hbs_queue.Errors.{GoError, Result}
use hbs_queue.Http.Message.{Request, Writer, Handler, answered, http_error}
use hbs_queue.Http.Middleware.{api_key_auth, webhook_auth}
use hbs_queue.Http.Requests.{EchoRequest}
use hbs_queue.Http.Routes.{Route, add_routes}
use hbs_queue.Prelude.{String, ◌≡◌, refl, ◌⊎◌, inl, inr, Option, Bytes, codes, utf8, All}
use hbs_queue.Prelude.Int.{ℤ}

module _ {W : Type 0} where
  abbrev pub AnswersUnauthorized : Handler W → Type 0
  AnswersUnauthorized handler =
      (w : W) (r : Request) (writer : Writer)
      → handler w r writer ≡ answered w (http_error (codes "unauthorized") 401 writer)

  -- A probe, which needs no authentication, or a route that lets nobody in.
  abbrev pub IsClosed : Route W → Type 0
  IsClosed route =
      ((route.pattern ≡ "GET /ready") ⊎ (route.pattern ≡ "GET /health"))
      ⊎ AnswersUnauthorized route.handler

  no_key :
      (key : String) (next : Handler W)
      → key ≡ ""
      → AnswersUnauthorized (api_key_auth (utf8 key) next)
  unfolding api_key_auth
  no_key key next e w r writer = rw e refl

  no_secret :
      (hmac : Bytes → Bytes → Bytes) (now : W → ℤ) (secret : String) (next : Handler W)
      → secret ≡ ""
      → AnswersUnauthorized (webhook_auth hmac now (utf8 secret) next)
  unfolding webhook_auth
  no_secret hmac now secret next e w r writer = rw e refl

  -- In an environment with no variable set, every route but the two probes answers 401 to every
  -- request, whatever headers it carries, and does nothing else.
  add_routes-IsClosed :
      (ping : W → Option GoError) (decode_echo : Bytes → Option GoError → Result EchoRequest)
      (hmac : Bytes → Bytes → Bytes) (now : W → ℤ) (onboard : Handler W) (build : BuildInfo)
      (getenv : String → String)
      → ((key : String) → getenv key ≡ "")
      → All IsClosed (add_routes ping decode_echo hmac now onboard (load build getenv))
  unfolding add_routes load
  add_routes-IsClosed ping decode_echo hmac now onboard build getenv unset = (
    inl (inl refl),
    (
      inl (inr refl),
      (
        inr (no_key _ _ (unset "API_KEY")),
        (
          inr (no_key _ _ (unset "API_KEY")),
          (
            inr (no_secret hmac now _ _ (unset "HOOK_SECRET_DEBOARD_ORG")),
            (
              inr (no_secret hmac now _ _ (unset "HOOK_SECRET_ONBOARD_CONTACT")),
              (
                inr (no_secret hmac now _ _ (unset "HOOK_SECRET_DEBOARD_CONTACT")),
                (
                  inr (no_secret hmac now _ _ (unset "HOOK_SECRET_UPDATE_PW")),
                  (inr (no_secret hmac now _ _ (unset "HOOK_SECRET_UPDATE_BANDWIDTH")), tt),
                ),
              ),
            ),
          ),
        ),
      ),
    ),
  )
