-- ===== src/Scenarios/Store.antt =====
-- A database and a queue in memory: the rows of the workflows and one job.
use hbs_queue.Errors.{GoError, Result, ok, err, message, not_found, is_err_not_found}
use hbs_queue.Jobs.Args.{OnboardOrgArgs}
use hbs_queue.Jobs.OnboardOrg.{Pool, PoolLaws, IsUp}
use hbs_queue.Orders.{IsReachable}
use hbs_queue.Prelude.{ℕ, refl, inl, Option, none, some, codes, arith, ◌==◌, if◌then◌else◌, ◌≡◌}
use hbs_queue.Workflow.Repository.{Repository, SameProgress, RepositoryLaws, IsAvailable}
use hbs_queue.Workflow.State.{WorkflowState}

-- The rows of the workflows, and the queued job.
pub record Store : Type 0 where
  pub rows : ℕ → Option WorkflowState
  pub job : Option OnboardOrgArgs

abbrev pub write : ℕ → WorkflowState → Store → Store
write job row s = record s { rows = λ j. if j == job then some row else s.rows j }

abbrev pub add : Store → WorkflowState → Store × Option GoError
add d s = elim (d.rows s.job_id) [
  | some r ↦ (d, some (message (codes "duplicate key")))
  | none ↦ (write s.job_id s d, none)
]

abbrev pub get : Store → ℕ → Result WorkflowState
get d job = elim (d.rows job) [ none ↦ err not_found | some r ↦ ok (record r { job_id = job }) ]

abbrev pub update_step : Store → WorkflowState → Store × Option GoError
update_step d s = elim (d.rows s.job_id) [
  | none ↦ (d, some not_found)
  | some r ↦ (write s.job_id s d, none)
]

abbrev pub repo : Repository Store
repo = record {
  create = λ d s. ((add d s).0, s, (add d s).1);
  get = get;
  update_step = update_step;
}

pub update_found :
    (d : Store) (s r : WorkflowState) → get d s.job_id ≡ ok r → (update_step d s).1 ≡ none
update_found d s r h = ground arith

-- The same at a later time, with another generator of ids.
abbrev later : WorkflowState → WorkflowState
later s = record s { id = "second"; created_at = 9; updated_at = 9 }

abbrev pub repo_later : Repository Store
repo_later = record {
  create = λ d s. ((add d (later s)).0, later s, (add d (later s)).1);
  get = get;
  update_step = update_step;
}

itself : (s : WorkflowState) → SameProgress s s
itself s = record {
  same_job = refl;
  same_step = refl;
  same_status = refl;
  same_error = refl;
  same_accumulator = refl;
}

pub repo-RepositoryLaws : RepositoryLaws repo
repo-RepositoryLaws = record {
  get-update_step = λ d s h. record { row = s; found = ground arith; same = itself s };
  get-update_step_ne = λ d s job h other. ground arith;
  create_fills = λ d s h. refl;
  get-create = λ d s h step text. (ground arith, itself s);
  get-create_ne = λ d s job h other. ground arith;
  get-job_id = λ d job r h. ground arith;
}

pub repo_later-RepositoryLaws : RepositoryLaws repo_later
repo_later-RepositoryLaws = record {
  get-update_step = λ d s h. record { row = s; found = ground arith; same = itself s };
  get-update_step_ne = λ d s job h other. ground arith;
  create_fills = λ d s h. refl;
  get-create = λ d s h step text. (
    ground arith,
    record {
      same_job = refl;
      same_step = refl;
      same_status = refl;
      same_error = refl;
      same_accumulator = refl;
    },
  );
  get-create_ne = λ d s job h other. ground arith;
  get-job_id = λ d job r h. ground arith;
}

abbrev pub repo_later-IsAvailable : IsAvailable repo_later
repo_later-IsAvailable = record {
  TakesData = λ a. Unit {0};
  TakesText = λ text. Unit {0};
  takes_no_text = tt;
  get-TakesData = λ d job r h. tt;
  update_succeeds = λ d s r h fits text. update_found d s r h;
}

abbrev pub repo-IsAvailable : IsAvailable repo
repo-IsAvailable = record {
  TakesData = λ a. Unit {0};
  TakesText = λ text. Unit {0};
  takes_no_text = tt;
  get-TakesData = λ d job r h. tt;
  update_succeeds = λ d s r h fits text. update_found d s r h;
}

abbrev pub pool : Pool Store Store
pool = record { begin = λ s. ok s; commit = λ s tx. (tx, none); rollback = λ s tx. s }

pub pool-PoolLaws : PoolLaws pool
pool-PoolLaws = record {
  rollback_discards = λ s tx. refl;
  begin-commit = λ s tx later committed begun. ground arith;
  begin-commit_atomic = λ s tx later begun. inl (ground arith);
}

abbrev pub insert_job : Store → OnboardOrgArgs → Store × Result ℕ
insert_job s args = (record s { job = some args }, ok 41)

abbrev pub job_of : Store → ℕ → Option OnboardOrgArgs
job_of s id = s.job

pub up : IsUp pool repo
unfolding is_err_not_found
up = record {
  begins = λ s. (s, refl);
  commits = λ s tx later job begun wrote. refl;
  creates = λ tx id args a e small fits made missing known. ground arith;
}

pub reachable : IsReachable pool repo insert_job job_of
reachable = record {
  up = up;
  insert_job-FitsBigint = λ tx args id h. ground arith;
  job_of-insert_job = λ s tx args id inserted. refl;
}
