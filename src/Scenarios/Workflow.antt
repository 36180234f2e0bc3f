-- ===== src/Scenarios/Workflow.antt =====
-- A workflow of two steps over a table in memory: the second step fails at first.
use hbs_queue.Errors.{GoError, message, not_found, ok, is_err_not_found}
use hbs_queue.Errors.Text.{error_text}
use hbs_queue.Prelude.{
  ℕ, suc, ◌≤◌, ◌<◌, ◌≡◌, refl, ◌⊎◌, none, some, List, [], ◌∷◌, Bytes, codes, drop, All, ltb,
  if◌then◌else◌, str_eq, ◌==◌,
}
use hbs_queue.Workflow.Pgx.Available.{pgx_repository-IsAvailable}
use hbs_queue.Workflow.Pgx.Laws.{pgx_repository-RepositoryLaws}
use hbs_queue.Workflow.Database.Table.{
  Table, table_database, table_database-DatabaseLaws, table_database-IsReachable,
}
use hbs_queue.Workflow.Database.{Row, json_object}
use hbs_queue.Workflow.Pgx.{pgx_repository}
use hbs_queue.Workflow.Repository.{
  Repository, SameProgress, RepositoryLaws, IsAvailable, KeepsStorable,
}
use hbs_queue.Workflow.Runner.Execute.{execute, stopped}
use hbs_queue.Workflow.Runner.Refines.{Agrees}
use hbs_queue.Workflow.Runner.Resume.{run_resumes, run_creates, retry_resumes}
use hbs_queue.Workflow.Runner.Sound.{Completes, IsCreated, run_nil-Completes}
use hbs_queue.Workflow.Runner.{Ran, new_state, marked_running, run}
use hbs_queue.Workflow.State.{Entries, str, WorkflowState, failed}
use hbs_queue.Workflow.Step.{Step, KeepsContract}

abbrev lower : Bytes → Bytes
lower s = s

abbrev repo : Repository Table
repo = pgx_repository table_database

abbrev laws : RepositoryLaws repo
laws = pgx_repository-RepositoryLaws table_database table_database-DatabaseLaws

abbrev available : IsAvailable repo
available = pgx_repository-IsAvailable table_database table_database-IsReachable

abbrev acme : Entries
acme = λ k. if str_eq k "org" then some (str "acme") else none

-- The world counts the calls of steps.
abbrev find_org : Step ℕ
find_org = record {
  name = "find_org";
  run = λ w s. (suc w, record s { accumulator = some acme }, none);
}

abbrev down : GoError
down = message (codes "down")

abbrev flaky : Step ℕ
flaky = record { name = "flaky"; run = λ w s. (suc w, s, if ltb w 2 then some down else none) }

abbrev steps : List (Step ℕ)
steps = find_org ∷ flaky ∷ []

abbrev contract : All KeepsContract steps
contract = (
  record {
    keeps_job_id = λ w s. refl;
    keeps_current_step = λ w s. refl;
    keeps_status = λ w s. refl;
    keeps_error = λ w s. refl;
  },
  (
    record {
      keeps_job_id = λ w s. refl;
      keeps_current_step = λ w s. refl;
      keeps_status = λ w s. refl;
      keeps_error = λ w s. refl;
    },
    tt,
  ),
)

-- The table takes everything.
storable : All (KeepsStorable lower available) steps
storable = (
  record { keeps_data = λ w s fits. tt; fails_text = λ w s e text fails told t stored. tt },
  (record { keeps_data = λ w s fits. fits; fails_text = λ w s e text fails told t stored. tt }, tt),
)

abbrev row_at : ℕ → Row
row_at step = record {
  id = "w1";
  job_id = 7;
  workflow_type = "onboard_org";
  client_id = "crm-1";
  order_id = none;
  current_step = step;
  status = failed;
  error = some (codes "down");
  document = json_object acme;
  created_at = 10;
  updated_at = 20;
}

abbrev table_at : ℕ → Table
table_at step = λ job. if job == 7 then some (row_at step) else none

abbrev empty_table : Table
empty_table = λ job. none

abbrev state_at : ℕ → WorkflowState
state_at step = record {
  id = "w1";
  job_id = 7;
  workflow_type = "onboard_org";
  client_id = "crm-1";
  order_id = "";
  current_step = step;
  status = failed;
  error = codes "down";
  accumulator = some acme;
  created_at = 10;
  updated_at = 20;
}

abbrev run_it : Table → ℕ → Ran Table ℕ
run_it = run lower repo steps 7 "onboard_org" "crm-1" none

loaded : (step : ℕ) → repo.get (table_at step) 7 ≡ ok (state_at step)
unfolding pgx_repository
loaded step = refl

run_resumes_example :
    Agrees lower repo
      (execute 1 (drop 1 steps) (marked_running (state_at 1)) 2)
      (run_it (table_at 1) 2)
run_resumes_example =
    run_resumes lower repo laws available steps contract storable 7 "onboard_org" "crm-1" none
      (state_at 1) (table_at 1) 2 (loaded 1)

abbrev created : WorkflowState
created = (repo.create empty_table (new_state 7 "onboard_org" "crm-1" none)).1

run_creates_example :
    SameProgress created (new_state 7 "onboard_org" "crm-1" none)
    × Agrees lower repo (execute 0 steps (marked_running created) 0) (run_it empty_table 0)
unfolding pgx_repository is_err_not_found
run_creates_example =
    run_creates lower repo laws available steps contract storable 7 "onboard_org" "crm-1" none
      {e = not_found} empty_table 0 refl refl refl

stops_at_flaky :
    execute 0 steps (marked_running (state_at 0)) 0
    ≡ stopped down 2 (record (marked_running (state_at 0)) { current_step = 1 })
unfolding execute
stops_at_flaky = refl

retry_resumes_example :
    (r : WorkflowState) × (repo.get (run_it (table_at 0) 0).db 7 ≡ ok r)
    × (r.current_step ≡ 1)
    × (0 ≤ r.current_step)
    × (r.current_step < 2)
    × (r.accumulator ≡ some acme)
    × Agrees lower repo
        (execute r.current_step (drop r.current_step steps) (marked_running r) 2)
        (run_it (run_it (table_at 0) 0).db (run_it (table_at 0) 0).world)
unfolding error_text
retry_resumes_example =
    retry_resumes lower repo laws available steps contract storable 7 "onboard_org" "crm-1" none
      (state_at 0) (record (marked_running (state_at 0)) { current_step = 1 }) (table_at 0) 0 2
      {e = down} {text = codes "down"} (loaded 0) stops_at_flaky refl

run_nil-Completes_example :
    (s : WorkflowState) × ((repo.get (table_at 1) 7 ≡ ok s)
      ⊎ IsCreated repo s (new_state 7 "onboard_org" "crm-1" none) (table_at 1))
    × Completes lower repo
        (execute s.current_step (drop s.current_step steps) (marked_running s) 2)
        (run_it (table_at 1) 2)
unfolding run pgx_repository
run_nil-Completes_example =
    run_nil-Completes lower repo laws steps 7 "onboard_org" "crm-1" none (table_at 1) 2 refl

pgx_repository-RepositoryLaws_example : RepositoryLaws (pgx_repository table_database)
pgx_repository-RepositoryLaws_example =
    pgx_repository-RepositoryLaws table_database table_database-DatabaseLaws
