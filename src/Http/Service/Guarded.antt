-- ===== src/Http/Service/Guarded.antt =====
-- Whatever a request, the service does to its backend what the handler of orders does, or nothing;
-- and it does the former for the bearer of the API key only.
use hbs_queue.Http.Message.Status.{encode_not_202, http_error_not_202}
use hbs_queue.Http.Message.{
  Request, Writer, Served, Handler, answered, header_value, http_error, Reply, encode,
}
use hbs_queue.Errors.{GoError, Result}
use hbs_queue.Http.Handlers.Echo.{handle_echo_lem}
use hbs_queue.Http.Handlers.{handle_ready, handle_health, handle_echo}
use hbs_queue.Http.Middleware.Auth.{api_key_auth_lem, webhook_auth_lem}
use hbs_queue.Http.Middleware.{api_key_auth, webhook_auth}
use hbs_queue.Http.Requests.{EchoRequest}
use hbs_queue.Prelude.Int.{ℤ}
use hbs_queue.Config.{Config}
use hbs_queue.Http.Service.{World, on_backend}
use hbs_queue.Prelude.{
  ℕ, ◌≡◌, ◌≢◌, Option, none, some, [], Bytes, codes, refl, arith, inl, inr, Option-cases,
}

module _ {B R : Type 0} (onboard : Handler B) (key : Bytes) (w : World B R) (r : Request)
    (writer : Writer) where
  pub data Outcome (served : Served (World B R)) : Type 0 where
    -- the backend is left alone, and the answer to a fresh response is not 202
    aside :
        served.world.backend ≡ w.backend
        → (writer.status ≡ none → served.writer.status ≢ some 202)
        → Outcome served
    -- the caller bears the key, and the backend is as the handler of orders leaves it for the body
    -- of the request; an answer of 202 is that handler's
    ordered :
        (given : Request) (inner : Writer)
        → key ≢ []
        → header_value r.headers "X-API-Key" ≡ key
        → given.body ≡ r.body
        → given.body_error ≡ r.body_error
        → inner.status ≡ writer.status
        → served.world.backend ≡ (onboard w.backend given inner).world
        → (served.writer.status ≡ some 202
            → (onboard w.backend given inner).writer.status ≡ some 202)
        → Outcome served

module _ {B R : Type 0} (onboard : Handler B) (key : Bytes) where
  abbrev pub Guards : Handler (World B R) → Type 0
  Guards h =
      (w : World B R) (r : Request) (writer : Writer)
      → Outcome onboard key w r writer (h w r writer)

  module _ (w : World B R) (r : Request) (writer : Writer) where
    abbrev pub Ends : Served (World B R) → Type 0
    Ends = Outcome onboard key w r writer

    pub refused :
        (message : Bytes) (code : ℕ)
        → code ≢ 202
        → Ends (answered w (http_error message code writer))
    refused message code other =
        aside refl (λ fresh. http_error_not_202 message code writer fresh other)

    replied : (code : ℕ) (reply : Reply) → code ≢ 202 → Ends (answered w (encode code reply writer))
    replied code reply other = aside refl (λ fresh. encode_not_202 code reply writer fresh other)

    pub api_key_auth-Ends :
        (next : Handler (World B R))
        → (key ≢ [] → header_value r.headers "X-API-Key" ≡ key → Ends (next w r writer))
        → Ends (api_key_auth key next w r writer)
    api_key_auth-Ends next h = elim (api_key_auth_lem next w r writer key) [
      | inl (some_key, right, e) ↦ rw e (h some_key right)
      | inr (why, e) ↦ rw e (refused (codes "unauthorized") 401 (λ h. ground arith))
    ]

    pub webhook_auth-Ends :
        (hmac : Bytes → Bytes → Bytes) (now : World B R → ℤ) (secret : Bytes)
        (next : Handler (World B R))
        → Ends (next w r writer)
        → Ends (webhook_auth hmac now secret next w r writer)
    webhook_auth-Ends hmac now secret next h =
        elim (webhook_auth_lem next w r writer hmac now secret) [
          | inl (signed, e) ↦ rw e h
          | inr (why, inl e) ↦ rw e (refused (codes "unauthorized") 401 (λ h. ground arith))
          | inr (why, inr (broken, e)) ↦
              rw e (refused (codes "bad request") 400 (λ h. ground arith))
        ]

    pub handle_echo-Ends :
        (decode : Bytes → Option GoError → Result EchoRequest)
        → Ends (handle_echo decode w r writer)
    handle_echo-Ends decode = elim (handle_echo_lem decode w r writer) [
      | inl (req, _, _, _, e) ↦ rw e (replied 200 _ (λ h. ground arith))
      | inr (inl (req, _, _, problems, e)) ↦ rw e (replied 422 _ (λ h. ground arith))
      | inr (inr (x, _, e)) ↦ rw e (replied 400 _ (λ h. ground arith))
    ]

    pub handle_ready-Ends :
        (ping : World B R → Option GoError) → Ends (handle_ready ping w r writer)
    unfolding handle_ready
    handle_ready-Ends ping = elim (Option-cases (ping w)) [
      | inl e ↦ rw (e, handle_ready) (replied 200 _ (λ h. ground arith))
      | inr (x, e) ↦ rw (e, handle_ready) (replied 503 _ (λ h. ground arith))
    ]

    pub handle_health-Ends :
        (ping : World B R → Option GoError) (cfg : Config)
        → Ends (handle_health ping cfg w r writer)
    unfolding handle_health
    handle_health-Ends ping cfg = replied 200 _ (λ h. ground arith)

    pub on_backend-Ends :
        key ≢ [] → header_value r.headers "X-API-Key" ≡ key → Ends (on_backend onboard w r writer)
    on_backend-Ends some_key right = ordered r writer some_key right refl refl refl refl (λ h. h)
