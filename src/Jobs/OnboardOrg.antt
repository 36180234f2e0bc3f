-- ===== src/Jobs/OnboardOrg.antt =====
-- internal/jobs/onboard_org.go: the worker of the onboard_org job. The connection pool is a
-- parameter: a store of what is committed, and the transactions over it.
pub mod Accumulated
pub mod Typed
pub mod Transaction
pub mod Atomic
pub mod Backlog
pub mod Restart
pub mod Workers
use hbs_queue.Errors.{GoError, Result, ok, err, wrap, is_err_not_found}
use hbs_queue.Jobs.Args.{OnboardOrgArgs}
use hbs_queue.Prelude.{
  ℕ, ◌<◌, ◌^◌, String, ◌≡◌, ◌⊎◌, Bool, true, false, ◌&&◌, ◌||◌, ◌==◌, leb, length, utf8, Option,
  none, some, List, [], ◌∷◌, Bytes, codes, if◌then◌else◌, str_eq,
}
use hbs_queue.Prelude.Int.{two_63}
use hbs_queue.Workflow.Repository.{Repository}
use hbs_queue.Workflow.Runner.Isolated.{Wrote}
use hbs_queue.Workflow.Runner.{returned, panicked, Ran, new_state, run}
use hbs_queue.Workflow.State.{Json, int, str, Accumulator, fits_int64}
use hbs_queue.Workflow.Step.{Step}

-- `S` is the committed content of the database.
pub record Pool (S Tx : Type 0) : Type 0 where
  pub begin : S → Result Tx
  pub commit : S → Tx → S × Option GoError
  pub rollback : S → Tx → S

-- Documented behaviour of transactions: a rollback changes nothing that is committed, be the
-- transaction open or already committed; a later transaction sees what was committed; and a commit
-- whose reply is an error has been done as a whole or not at all. (One transaction at a time:
-- Workers has several side by side.)
pub record PoolLaws {S Tx : Type 0} (pool : Pool S Tx) : Type 0 where
  pub rollback_discards : (s : S) (tx : Tx) → pool.rollback s tx ≡ s
  pub begin-commit :
      (s : S) (tx later : Tx)
      → (pool.commit s tx).1 ≡ none
      → pool.begin (pool.commit s tx).0 ≡ ok later
      → later ≡ tx
  pub begin-commit_atomic :
      (s : S) (tx later : Tx)
      → pool.begin (pool.commit s tx).0 ≡ ok later
      → (later ≡ tx) ⊎ (pool.begin s ≡ ok later)

-- json.Marshal of the arguments: a member for each field, under the name in its tag.
unfoldable pub fields : OnboardOrgArgs → List (String × Json)
fields args =
    ("crm_id", str args.client_id)
    ∷ ("organization_name", str args.organization_name)
    ∷ ("client_username", str args.client_username)
    ∷ ("client_first_name", str args.client_first_name)
    ∷ ("client_last_name", str args.client_last_name)
    ∷ ("client_email", str args.client_email)
    ∷ ("account_id", int args.account_id)
    ∷ ("country", str args.country)
    ∷ ("state", str args.state)
    ∷ ("postal_code", str args.postal_code)
    ∷ ("max_zerto_storage", int args.max_zerto_storage)
    ∷ ("max_zerto_vms", int args.max_zerto_vms)
    ∷ ("bandwidth", str args.bandwidth)
    ∷ ("product_id", str args.product_id)
    ∷ []

-- The members of an object as a map; a later member of a name replaces an earlier one.
unfoldable pub member : List (String × Json) → String → Option Json
member [] key = none
member ((name, value) ∷ more) key = elim (member more key) [
  | some later ↦ some later
  | none ↦ if str_eq name key then some value else none
]

-- json.Marshal of the arguments, which cannot fail on strings and ints, and json.Unmarshal of the
-- object into a map.
unfoldable pub args_to_data : OnboardOrgArgs → Result Accumulator
unfolding fields member
args_to_data args = ok (some (member (fields args)))

abbrev has_nul : Bytes → Bool
has_nul [] = false
has_nul (c ∷ s) = c == 0 || has_nul s

-- Texts that a JSONB column takes with room to spare: no NUL character and at most 2^20 bytes. (It
-- takes a string up to 2^28 bytes.)
unfoldable fits_jsonb : List String → Bool
fits_jsonb [] = true
fits_jsonb (text ∷ texts) =
    let rest = fits_jsonb texts in
    if has_nul (codes text) then false else leb (length (utf8 text)) (2 ^ 20) && rest

-- The row of a job with these arguments fits the columns of db/migrations/001_workflow_state.up.sql:
-- client_id is a VARCHAR(50), and the payload goes into a JSONB column. The workflow_type
-- "onboard_org" always fits.
unfoldable pub fits_columns : OnboardOrgArgs → Bool
unfolding fits_jsonb
fits_columns args =
    leb (length (codes args.client_id)) 50
    && fits_jsonb (
        args.client_id ∷ args.organization_name ∷ args.client_username ∷ args.client_first_name
        ∷ args.client_last_name ∷ args.client_email ∷ args.country ∷ args.state ∷ args.postal_code
        ∷ args.bandwidth ∷ args.product_id ∷ [])
    && fits_int64 args.account_id
    && fits_int64 args.max_zerto_storage
    && fits_int64 args.max_zerto_vms

-- The number of a job is a BIGINT.
abbrev pub FitsBigint : ℕ → Type 0
FitsBigint id = id < two_63

-- Documented behaviour of PostgreSQL while it can be reached: transactions begin, are committed where
-- every statement in them succeeded, and get a row for a job that has none, if the row fits the
-- columns.
pub record IsUp {S Tx : Type 0} (pool : Pool S Tx) (repo : Repository Tx) : Type 0 where
  pub begins : (s : S) → (tx : Tx) × (pool.begin s ≡ ok tx)
  pub commits :
      (s : S) (tx later : Tx) (job : ℕ)
      → pool.begin s ≡ ok tx
      → Wrote repo job tx later
      → (pool.commit s later).1 ≡ none
  pub creates :
      (tx : Tx) (id : ℕ) (args : OnboardOrgArgs) (a : Accumulator) (e : GoError)
      → FitsBigint id
      → fits_columns args ≡ true
      → args_to_data args ≡ ok a
      → repo.get tx id ≡ err e
      → is_err_not_found e ≡ true
      → (repo.create tx (new_state id "onboard_org" args.client_id a)).2 ≡ none

module _ {W : Type 0} where
  -- Each stub step returns nil and does nothing.
  stub : String → Step W
  stub name = record { name = name; run = λ w s. (w, s, none) }

  unfoldable pub onboard_org_steps : List (Step W)
  unfolding stub
  onboard_org_steps =
      stub "check_org"
      ∷ stub "network_config"
      ∷ stub "saml_config"
      ∷ stub "zerto_setup"
      ∷ stub "ldap_update"
      ∷ stub "keycloak_sync"
      ∷ stub "vapp_template"
      ∷ []

-- The rest of Work once the runner has ended, the deferred rollback included.
unfoldable pub finish_tx : {S Tx W : Type 0} → Pool S Tx → S → Ran Tx W → Ran S W
finish_tx pool s ran = elim ran.outcome [
  | panicked ↦ record { db = pool.rollback s ran.db; world = ran.world; outcome = panicked }
  | returned (some e) ↦ record {
    db = pool.rollback s ran.db;
    world = ran.world;
    outcome = returned (some e);
  }
  | returned none ↦
      let (s', result) = pool.commit s ran.db in
      record { db = pool.rollback s' ran.db; world = ran.world; outcome = returned result }
]

module _ (unicode_lower : Bytes → Bytes) {S Tx W : Type 0} (pool : Pool S Tx)
    (repo : Repository Tx) where
  -- (*OnboardOrgWorker).Work for a given list of steps.
  unfoldable pub work_steps : List (Step W) → ℕ → OnboardOrgArgs → S → W → Ran S W
  unfolding finish_tx
  work_steps steps job_id args s w = elim (pool.begin s) [
    | err e ↦ record { db = s; world = w; outcome = returned (some (wrap (codes "begin tx: ") e)) }
    | ok tx ↦ elim (args_to_data args) [
      | err e ↦ record {
        db = pool.rollback s tx;
        world = w;
        outcome = returned (some (wrap (codes "marshal args: ") e));
      }
      | ok initial_data ↦
          finish_tx pool s
            (run unicode_lower repo steps job_id "onboard_org" args.client_id initial_data tx w)
    ]
  ]

  -- (*OnboardOrgWorker).Work
  unfoldable pub work : ℕ → OnboardOrgArgs → S → W → Ran S W
  work = work_steps onboard_org_steps
