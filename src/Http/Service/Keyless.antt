-- ===== src/Http/Service/Keyless.antt =====
-- The routes, the multiplexer and the whole of NewServer.
use mathlib.Core.List.Memᴰ.{head, tail}
use mathlib.Core.List.{Memᴰ}
use hbs_queue.Http.Message.{Request, Writer, Handler, header_value}
use hbs_queue.Errors.{GoError, Result}
use hbs_queue.Http.Handlers.{handle_echo, not_implemented}
use hbs_queue.Http.Middleware.{LogLine, webhook_auth}
use hbs_queue.Http.Requests.{EchoRequest}
use hbs_queue.Prelude.Int.{ℤ}
use hbs_queue.Config.{Config}
use hbs_queue.Http.Routes.{Route, add_routes}
use hbs_queue.Http.Service.Guarded.{
  aside, ordered, Guards, refused, api_key_auth-Ends, webhook_auth-Ends, handle_echo-Ends,
  handle_ready-Ends, handle_health-Ends, on_backend-Ends,
}
use hbs_queue.Http.Service.Layers.{new_server-Guards}
use hbs_queue.Http.Service.{service, generate, write_log, World, on_backend, MuxLaws, routes}
use hbs_queue.Prelude.{
  String, ap, ◌≡◌, ◌≢◌, ◌⊎◌, Option, [], ◌∷◌, Bytes, List, All, subst, sym, codes, utf8, refl,
  arith, inl, inr,
}

pub All-mem : {A : Type 0} (P : A → Type 0) (xs : List A) {a : A} → All P xs → Memᴰ a xs → P a
All-mem P [] p m = elim m [ ]
All-mem P (x ∷ xs) (p, ps) (head e) = subst P (sym e) p
All-mem P (x ∷ xs) (p, ps) (tail m) = All-mem P xs ps m

module _ {B R : Type 0} (serve_mux : List (Route (World B R)) → Handler (World B R))
    (laws : MuxLaws serve_mux) (read : R → R × Bytes) (log : LogLine → R → R) (now : R → ℤ)
    (ping : B → Option GoError) (decode_echo : Bytes → Option GoError → Result EchoRequest)
    (hmac : Bytes → Bytes → Bytes) (onboard : Handler B) (cfg : Config) where
  abbrev pub key : Bytes
  key = utf8 cfg.api_key

  abbrev table : List (Route (World B R))
  table = routes now ping decode_echo hmac onboard cfg

  table-Guards : All (λ route. Guards onboard key route.handler) table
  unfolding add_routes
  table-Guards = (
    (λ w r v. handle_ready-Ends onboard key w r v (λ (x : World B R). ping x.backend)),
    (
      (λ w r v. handle_health-Ends onboard key w r v (λ (x : World B R). ping x.backend) cfg),
      (
        (λ w r v.
            api_key_auth-Ends onboard key w r v (handle_echo decode_echo)
              (λ some_key right. handle_echo-Ends onboard key w r v decode_echo)),
        (
          (λ w r v.
              api_key_auth-Ends onboard key w r v (on_backend onboard)
                (λ some_key right. on_backend-Ends onboard key w r v some_key right)),
          (
            hook cfg.hooks.deboard_org,
            (
              hook cfg.hooks.onboard_contact,
              (
                hook cfg.hooks.deboard_contact,
                (hook cfg.hooks.update_pw, (hook cfg.hooks.update_bandwidth, tt)),
              ),
            ),
          ),
        ),
      ),
    ),
  )
    where
      hook :
          (secret : String)
          → Guards onboard key
              (webhook_auth hmac (λ (w : World B R). now w.rest) (utf8 secret) not_implemented)
      hook secret w r v =
          webhook_auth-Ends onboard key w r v hmac (λ (x : World B R). now x.rest) (utf8 secret)
            not_implemented
            (refused onboard key w r v (codes "Not Implemented") 501 (λ h. ground arith))

  mux-Guards : Guards onboard key (serve_mux table)
  mux-Guards w r writer = elim (laws.dispatches table w r writer) [
    | inl (route, there, e) ↦ rw e (
        All-mem (λ (x : Route (World B R)). Guards onboard key x.handler) table table-Guards there w
          r writer)
    | inr (same, other) ↦ aside (ap (λ x. x.backend) same) other
  ]

  abbrev pub served : Handler (World B R)
  served = service now ping decode_echo hmac onboard serve_mux read log cfg

  -- Every answer of the service either leaves the backend alone, or is the bearer's of the API key
  -- and leaves the backend as the handler of orders does.
  pub service-Guards : Guards onboard key served
  unfolding service
  service-Guards =
      new_server-Guards onboard key (generate read) (write_log log) cfg.env (serve_mux table)
        (λ w. refl) (λ line w. refl) mux-Guards

  -- Behind a multiplexer that hands a request to a route or refuses it, the whole service leaves
  -- its backend (database, VCD client and network) as it is for every request that does not carry
  -- the configured API key, and for every request where none is configured.
  pub service_keyless :
      (w : World B R) (r : Request) (writer : Writer)
      → ((cfg.api_key ≡ "") ⊎ (header_value r.headers "X-API-Key" ≢ key))
      → (served w r writer).world.backend ≡ w.backend
  service_keyless w r writer why = elim (service-Guards w r writer) [
    | aside same other ↦ same
    | ordered given inner some_key right _ _ _ _ _ ↦ elim why [
      | inl unset ↦ absurd (some_key (ap utf8 unset))
      | inr wrong ↦ absurd (wrong right)
    ]
  ]
