-- ===== src/Scenarios/Jobs.antt =====
-- The onboard_org job over a table in memory.
use hbs_queue.Errors.{GoError, message, not_found, ok, is_err_not_found}
use hbs_queue.Jobs.Args.{OnboardOrgArgs}
use hbs_queue.Jobs.OnboardOrg.Transaction.{work_completes}
use hbs_queue.Jobs.OnboardOrg.Typed.{args_to_data_read}
use hbs_queue.Jobs.OnboardOrg.{Pool, PoolLaws, fields, member, args_to_data, work_steps, work}
use hbs_queue.Prelude.{
  ℕ, suc, ◌≡◌, ◌≢◌, refl, inl, none, some, List, [], ◌∷◌, Bytes, codes, arith, true,
}
use hbs_queue.Prelude.Int.{pos}
use hbs_queue.Workflow.Pgx.Available.{pgx_repository-IsAvailable}
use hbs_queue.Workflow.Pgx.Laws.{pgx_repository-RepositoryLaws}
use hbs_queue.Workflow.Database.Table.{
  Table, table_database, table_database-DatabaseLaws, table_database-IsReachable,
}
use hbs_queue.Workflow.Pgx.{pgx_repository}
use hbs_queue.Workflow.Repository.{Repository}
use hbs_queue.Workflow.Runner.{Ran, returned, run, new_state}
use hbs_queue.Workflow.State.{Accumulator, WorkflowState, completed, get_string, get_int}
use hbs_queue.Workflow.Step.{Step}

abbrev lower : Bytes → Bytes
lower s = s

abbrev repo : Repository Table
repo = pgx_repository table_database

abbrev pool : Pool Table Table
pool = record { begin = λ s. ok s; commit = λ s tx. (tx, none); rollback = λ s tx. s }

pool-PoolLaws : PoolLaws pool
pool-PoolLaws = record {
  rollback_discards = λ s tx. refl;
  begin-commit = λ s tx later committed begun. ground arith;
  begin-commit_atomic = λ s tx later begun. inl (ground arith);
}

abbrev pub args : OnboardOrgArgs
args = record {
  client_id = "crm-1";
  organization_name = "Acme";
  client_username = "jd";
  client_first_name = "Jo";
  client_last_name = "Doe";
  client_email = "jo@acme.test";
  account_id = pos 4;
  country = "US";
  state = "FL";
  postal_code = "33101";
  max_zerto_storage = pos 100;
  max_zerto_vms = pos 5;
  bandwidth = "100";
  product_id = "p1";
}

abbrev payload : Accumulator
payload = some (member (fields args))

abbrev fresh : WorkflowState
fresh = new_state 7 "onboard_org" "crm-1" payload

args_to_data_read_example :
    (get_string fresh "crm_id" ≡ (args.client_id, true))
    × (get_string fresh "organization_name" ≡ (args.organization_name, true))
    × (get_string fresh "client_username" ≡ (args.client_username, true))
    × (get_string fresh "client_first_name" ≡ (args.client_first_name, true))
    × (get_string fresh "client_last_name" ≡ (args.client_last_name, true))
    × (get_string fresh "client_email" ≡ (args.client_email, true))
    × (get_int fresh "account_id" ≡ (args.account_id, true))
    × (get_string fresh "country" ≡ (args.country, true))
    × (get_string fresh "state" ≡ (args.state, true))
    × (get_string fresh "postal_code" ≡ (args.postal_code, true))
    × (get_int fresh "max_zerto_storage" ≡ (args.max_zerto_storage, true))
    × (get_int fresh "max_zerto_vms" ≡ (args.max_zerto_vms, true))
    × (get_string fresh "bandwidth" ≡ (args.bandwidth, true))
    × (get_string fresh "product_id" ≡ (args.product_id, true))
unfolding fields args_to_data
args_to_data_read_example = args_to_data_read args fresh refl refl refl refl

abbrev empty_table : Table
empty_table = λ job. none

abbrev done : Ran Table ℕ
done = work lower pool repo 7 args empty_table 0

work_completes_example :
    (done.outcome ≡ returned none)
    × (done.world ≡ 0)
    × (r : WorkflowState) × (repo.get done.db 7 ≡ ok r)
    × (r.status ≡ completed)
    × (r.current_step ≡ 7)
    × (r.accumulator ≡ payload)
unfolding args_to_data pgx_repository is_err_not_found
work_completes_example =
    work_completes lower pool pool-PoolLaws repo 7 args
      (pgx_repository-RepositoryLaws table_database table_database-DatabaseLaws)
      (pgx_repository-IsAvailable table_database table_database-IsReachable) {a = payload}
      {e = not_found} empty_table 0 {tx = empty_table} {later = done.db} refl refl refl refl refl
      (λ tx wrote. refl) refl

abbrev down : GoError
down = message (codes "down")

abbrev broken : List (Step ℕ)
broken = record { name = "broken"; run = λ w s. (suc w, s, some down) } ∷ []

abbrev ran : Ran Table ℕ
ran = run lower repo broken 7 "onboard_org" "crm-1" payload empty_table 0

abbrev worked : Ran Table ℕ
worked = work_steps lower pool repo broken 7 args empty_table 0

ran_failed : ran.outcome ≡ returned (some down)
unfolding run pgx_repository
ran_failed = refl

fails : ran.outcome ≢ returned none
fails h = let bad = ran_failed in cc
