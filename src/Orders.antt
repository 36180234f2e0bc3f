-- ===== src/Orders.antt =====
-- An order from its request to its workflow: the handler of internal/httpapi/handle_onboard_org.go
-- and the worker of internal/jobs/onboard_org.go over one database. River, which hands the queued
-- job to the worker, is a parameter.
pub mod Service
pub mod Calls
use hbs_queue.Errors.{GoError, Result, ok, err, is_err_not_found}
use hbs_queue.Http.Message.{Request, Writer, Served}
use hbs_queue.Http.OnboardOrg.Queued.{Accepted, handle_onboard_org_lem}
use hbs_queue.Http.OnboardOrg.{Backend, order_args, handle_onboard_org}
use hbs_queue.Http.Requests.{OnboardOrgRequest, onboard_org_valid}
use hbs_queue.Jobs.Args.{OnboardOrgArgs}
use hbs_queue.Jobs.OnboardOrg.{Pool, PoolLaws, IsUp, FitsBigint, fits_columns, fields, work}
use hbs_queue.Jobs.OnboardOrg.Accumulated.{args_to_data-fields}
use hbs_queue.Jobs.OnboardOrg.Transaction.{work_completes}
use hbs_queue.Prelude.{
  ◌∷◌, String, ℕ, ◌≡◌, refl, true, Option, none, some, List, [], Bytes, All, inl, inr, sym, subst,
}
use hbs_queue.Vcd.Client.{Platform}
use hbs_queue.Vcd.Types.{OrganizationResult}
use hbs_queue.Workflow.Repository.{Repository, RepositoryLaws, IsAvailable}
use hbs_queue.Workflow.Runner.{Ran, returned}
use hbs_queue.Workflow.State.{Json, str, int, Accumulator, WorkflowState, completed, read}

-- The members of the request's body, under the names in its tags (internal/httpapi/types.go).
abbrev pub request_fields : OnboardOrgRequest → List (String × Json)
request_fields r =
    ("organization_name", str r.organization_name)
    ∷ ("client_username", str r.client_username)
    ∷ ("client_first_name", str r.client_first_name)
    ∷ ("client_last_name", str r.client_last_name)
    ∷ ("client_email", str r.client_email)
    ∷ ("crm_id", str r.client_id)
    ∷ ("account_id", int r.account_id)
    ∷ ("country", str r.country)
    ∷ ("state", str r.state)
    ∷ ("postal_code", str r.postal_code)
    ∷ ("max_zerto_storage", int r.max_zerto_storage)
    ∷ ("max_zerto_vms", int r.max_zerto_vms)
    ∷ ("bandwidth", str r.bandwidth)
    ∷ ("product_id", str r.product_id)
    ∷ []

-- Documented behaviour of PostgreSQL and River while both can be reached. `job_of` is the payload
-- that River hands to the worker with a job's number.
pub record IsReachable {S Tx : Type 0} (pool : Pool S Tx) (repo : Repository Tx)
    (insert_job : Tx → OnboardOrgArgs → Tx × Result ℕ) (job_of : S → ℕ → Option OnboardOrgArgs)
    : Type 0 where
  pub up : IsUp pool repo
  -- the number of a job is an int64
  pub insert_job-FitsBigint :
      (tx : Tx) (args : OnboardOrgArgs) (id : ℕ) → (insert_job tx args).1 ≡ ok id → FitsBigint id
  -- a committed job is handed out with the payload that it was inserted with
  pub job_of-insert_job :
      (s : S) (tx : Tx) (args : OnboardOrgArgs) (id : ℕ)
      → (insert_job tx args).1 ≡ ok id
      → job_of (pool.commit s (insert_job tx args).0).0 id ≡ some args

-- A job that is inserted into the store `s` gets a number that no row of a workflow has.
abbrev pub NumbersAreNew :
    {S Tx : Type 0} → Pool S Tx → Repository Tx → (Tx → OnboardOrgArgs → Tx × Result ℕ) → S → Type 0
NumbersAreNew {S} {Tx} pool repo insert_job s =
    (tx later : Tx) (args : OnboardOrgArgs) (id : ℕ)
    → pool.begin s ≡ ok tx
    → (insert_job tx args).1 ≡ ok id
    → pool.begin (pool.commit s (insert_job tx args).0).0 ≡ ok later
    → (e : GoError) × (repo.get later id ≡ err e) × (is_err_not_found e ≡ true)

module _ (unicode_lower : Bytes → Bytes) {S Tx : Type 0} (pool : Pool S Tx)
    (job_of : S → ℕ → Option OnboardOrgArgs)
    (decode : Bytes → Option GoError → Result OnboardOrgRequest) (repo : Repository Tx) where
  -- The job that a store holds for the order of a request ends well: the worker returns nil, and a
  -- later transaction finds the workflow completed, with every member of the request.
  pub record Fulfilled {V : Type 0} (body : Bytes) (failed : Option GoError) (s : S) (v : V)
      : Type 0 where
    pub order : OnboardOrgRequest
    pub decoded : decode body failed ≡ ok order
    pub valid : onboard_org_valid order ≡ []
    pub id : ℕ
    pub queued : job_of s id ≡ some (order_args order)
    pub worked : Ran S V
    pub runs : work unicode_lower pool repo id (order_args order) s v ≡ worked
    pub outcome : worked.outcome ≡ returned none
    pub later : Tx
    pub begun : pool.begin worked.db ≡ ok later
    pub row : WorkflowState
    pub found : repo.get later id ≡ ok row
    pub status : row.status ≡ completed
    pub current_step : row.current_step ≡ 7
    pub stored : All (λ f. read row.accumulator f.0 ≡ some f.1) (request_fields order)

kept_request :
    (order : OnboardOrgRequest) (a : Accumulator)
    → All (λ f. read a f.0 ≡ some f.1) (fields (order_args order))
    → All (λ f. read a f.0 ≡ some f.1) (request_fields order)
unfolding fields order_args
kept_request order a (crm, (name, (user, (first, (last, (email, more)))))) =
    (name, (user, (first, (last, (email, (crm, more))))))

-- The order in the body of a request, if there is one, has fields that fit the columns of the row of
-- its job.
abbrev pub OrderFits :
    (Bytes → Option GoError → Result OnboardOrgRequest) → Bytes → Option GoError → Type 0
OrderFits decode body failed =
    (order : OnboardOrgRequest)
    → decode body failed ≡ ok order
    → fits_columns (order_args order) ≡ true

module _ (unicode_lower : Bytes → Bytes) {N S Tx : Type 0} (platform : Platform N)
    (unmarshal : Bytes → OrganizationResult → OrganizationResult × Option GoError)
    (pool : Pool S Tx) (insert_job : Tx → OnboardOrgArgs → Tx × Result ℕ)
    (decode : Bytes → Option GoError → Result OnboardOrgRequest) where
  abbrev pub handled : Backend N S → Request → Writer → Served (Backend N S)
  handled w r writer =
      handle_onboard_org unicode_lower platform unmarshal pool insert_job decode w r writer

  module _ {V : Type 0} (laws : PoolLaws pool) (repo : Repository Tx)
      (repo_laws : RepositoryLaws repo) (available : IsAvailable repo)
      (job_of : S → ℕ → Option OnboardOrgArgs)
      (reachable : IsReachable pool repo insert_job job_of) where
    abbrev Ends : Bytes → Option GoError → S → V → Type 0
    Ends = Fulfilled unicode_lower pool job_of decode repo

    Accepted-Fulfilled :
        (w : Backend N S) (r : Request) (writer : Writer) (v : V) (fresh : writer.status ≡ none)
        → NumbersAreNew pool repo insert_job w.store
        → OrderFits decode r.body r.body_error
        → Accepted unicode_lower platform unmarshal pool laws insert_job decode writer fresh w r
            (handled w r writer)
        → Ends r.body r.body_error (handled w r writer).world.store v
    Accepted-Fulfilled w r writer v fresh new fits accepted =
        let q = accepted.queued in
        let args = order_args accepted.order in
        let stored = (insert_job q.tx args).0 in
        let s = (pool.commit w.store stored).0 in
        let (data₀, made, kept, _) = args_to_data-fields args in
        let (tx, begun) = reachable.up.begins s in
        let (e, missing, known) = new q.tx tx args q.id q.begun q.inserted begun in
        let worked = work unicode_lower pool repo q.id args s v in
        let (later, again) = reachable.up.begins worked.db in
        let (outcome, _, row, found, status, step, same) =
          work_completes unicode_lower pool laws repo q.id args repo_laws available {a = data₀} s v
            begun made missing known
            (reachable.up.creates tx q.id args data₀ e
              (reachable.insert_job-FitsBigint q.tx args q.id q.inserted)
              (fits accepted.order accepted.decoded) made missing known)
            (λ t. reachable.up.commits s tx t q.id begun) again in
        subst (λ t. Ends r.body r.body_error t v) (sym q.stored)
          (record {
            order = accepted.order;
            decoded = accepted.decoded;
            valid = accepted.valid;
            id = q.id;
            queued = reachable.job_of-insert_job w.store q.tx args q.id q.inserted;
            worked = worked;
            runs = refl;
            outcome = outcome;
            later = later;
            begun = again;
            row = row;
            found = found;
            status = status;
            current_step = step;
            stored =
                kept_request accepted.order row.accumulator
                  (subst (λ a. All (λ f. read a f.0 ≡ some f.1) (fields args)) (sym same) kept);
          })

    -- With PostgreSQL and River in reach, a new job number and an order whose fields fit the columns
    -- of its row, an order that is answered with 202 on
    -- a fresh response was decoded and is valid, the committed store holds its job with its fields,
    -- and a worker that works on that job in this store returns nil, after which a new transaction
    -- finds the job's workflow completed, with seven steps and every field of the request under its name.
    pub handle_onboard_org-Fulfilled :
        (w : Backend N S) (r : Request) (writer : Writer) (v : V)
        → NumbersAreNew pool repo insert_job w.store
        → OrderFits decode r.body r.body_error
        → writer.status ≡ none
        → (handled w r writer).writer.status ≡ some 202
        → Ends r.body r.body_error (handled w r writer).world.store v
    handle_onboard_org-Fulfilled w r writer v new fits fresh answered =
        elim (handle_onboard_org_lem unicode_lower platform unmarshal pool laws insert_job decode
          writer fresh w r) [
            | inr (other, _) ↦ absurd (other answered)
            | inl accepted ↦ Accepted-Fulfilled w r writer v fresh new fits accepted
          ]
