-- ===== src/Orders/Service.antt =====
-- An order through the whole of the HTTP layer.
use hbs_queue.Config.{Config}
use hbs_queue.Errors.{GoError, Result}
use hbs_queue.Http.Message.{Request, Writer, Handler, header_value}
use hbs_queue.Http.Middleware.{LogLine}
use hbs_queue.Http.OnboardOrg.{Backend, handle_onboard_org}
use hbs_queue.Http.Requests.{EchoRequest, OnboardOrgRequest}
use hbs_queue.Http.Routes.{Route}
use hbs_queue.Http.Service.Guarded.{aside, ordered}
use hbs_queue.Http.Service.Keyless.{service-Guards}
use hbs_queue.Http.Service.{World, MuxLaws, service}
use hbs_queue.Jobs.Args.{OnboardOrgArgs}
use hbs_queue.Jobs.OnboardOrg.{Pool, PoolLaws}
use hbs_queue.Orders.{
  IsReachable, NumbersAreNew, OrderFits, Fulfilled, handle_onboard_org-Fulfilled,
}
use hbs_queue.Prelude.{ℕ, ◌≡◌, ◌≢◌, Option, none, some, List, Bytes, utf8, ◌∙◌, sym, ap, subst}
use hbs_queue.Prelude.Int.{ℤ}
use hbs_queue.Vcd.Client.{Platform}
use hbs_queue.Vcd.Types.{OrganizationResult}
use hbs_queue.Workflow.Repository.{Repository, RepositoryLaws, IsAvailable}

module _ (unicode_lower : Bytes → Bytes) {N S Tx R : Type 0} (platform : Platform N)
    (unmarshal : Bytes → OrganizationResult → OrganizationResult × Option GoError)
    (pool : Pool S Tx) (laws : PoolLaws pool) (insert_job : Tx → OnboardOrgArgs → Tx × Result ℕ)
    (decode : Bytes → Option GoError → Result OnboardOrgRequest) (repo : Repository Tx)
    (repo_laws : RepositoryLaws repo) (available : IsAvailable repo)
    (job_of : S → ℕ → Option OnboardOrgArgs) (reachable : IsReachable pool repo insert_job job_of)
    (serve_mux : List (Route (World (Backend N S) R)) → Handler (World (Backend N S) R))
    (mux_laws : MuxLaws serve_mux) (read : R → R × Bytes) (log : LogLine → R → R) (now : R → ℤ)
    (ping : Backend N S → Option GoError)
    (decode_echo : Bytes → Option GoError → Result EchoRequest) (hmac : Bytes → Bytes → Bytes)
    (cfg : Config) where
  abbrev pub onboard : Handler (Backend N S)
  onboard = handle_onboard_org unicode_lower platform unmarshal pool insert_job decode

  abbrev pub whole : Handler (World (Backend N S) R)
  whole = service now ping decode_echo hmac onboard serve_mux read log cfg

  -- With PostgreSQL and River in reach, a new job number, an order in the body, if there is one, whose
  -- fields fit the columns of its row (a crm_id of at most 50 characters, and no NUL character in a
  -- text), and a multiplexer that hands a request to a route or refuses it, a request that the whole service answers with 202 on a fresh response
  -- carries the configured API key, its body is a valid order, the committed store holds the order's
  -- job, and a worker that works on that job in this store returns nil, after which a new
  -- transaction finds the job's workflow completed, with seven steps and every field of the request
  -- under its name.
  pub service-Fulfilled :
      {V : Type 0} (w : World (Backend N S) R) (r : Request) (writer : Writer) (v : V)
      → NumbersAreNew pool repo insert_job w.backend.store
      → OrderFits decode r.body r.body_error
      → writer.status ≡ none
      → (whole w r writer).writer.status ≡ some 202
      → (cfg.api_key ≢ "")
        × (header_value r.headers "X-API-Key" ≡ utf8 cfg.api_key)
        × Fulfilled unicode_lower pool job_of decode repo r.body r.body_error
            (whole w r writer).world.backend.store
            v
  service-Fulfilled w r writer v new fits fresh answered =
      elim (service-Guards serve_mux mux_laws read log now ping decode_echo hmac onboard cfg w r
        writer) [
          | aside same other ↦ absurd (other fresh answered)
          | ordered given inner some_key right body failed status done accepted ↦
              let F : Bytes → Option GoError → S → Type 0 =
                λ b e t. Fulfilled unicode_lower pool job_of decode repo b e t v in
              let ends =
                handle_onboard_org-Fulfilled unicode_lower platform unmarshal pool insert_job decode
                  laws repo repo_laws available job_of reachable w.backend given inner v new
                  (λ o q. fits o ((λ j. decode (sym body j) (sym failed j)) ∙ q)) (status ∙ fresh)
                  (accepted answered) in
              let same_body =
                subst (λ b. F b given.body_error (onboard w.backend given inner).world.store) body
                  ends in
              let same_error =
                subst (λ e. F r.body e (onboard w.backend given inner).world.store) failed
                  same_body in
              (
                (λ unset. some_key (ap utf8 unset)),
                right,
                subst (λ t. F r.body r.body_error t.store) (sym done) same_error,
              )
        ]
