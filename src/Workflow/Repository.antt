-- ===== src/Workflow/Repository.antt =====
-- internal/workflow/state.go, Repository: the interface that the runner persists through, and
-- what its comments promise.
use hbs_queue.Errors.{GoError, Result, ok}
use hbs_queue.Errors.Text.{error_text}
use hbs_queue.Prelude.{ℕ, ◌≡◌, ◌≢◌, Option, none, some, [], Bytes}
use hbs_queue.Workflow.State.{Accumulator, WorkflowState}
use hbs_queue.Workflow.Step.{Step}

-- `D` is the content of the database as the transaction sees it. Create also returns the state,
-- whose id and times it fills in: those that the database generates for this repository. Two attempts
-- at a job get rows with different ids and times, so a theorem about both takes two repositories.
pub record Repository (D : Type 0) : Type 0 where
  pub create : D → WorkflowState → D × WorkflowState × Option GoError
  pub get : D → ℕ → Result WorkflowState
  pub update_step : D → WorkflowState → D × Option GoError

-- A state with the id and the times of another one, which the database generates for each new row.
abbrev pub restamp : (stamp s : WorkflowState) → WorkflowState
restamp stamp s = record s {
  id = stamp.id;
  created_at = stamp.created_at;
  updated_at = stamp.updated_at;
}

-- The row `r` holds what the runner persists of the state `s`.
pub record SameProgress (r s : WorkflowState) : Type 0 where
  pub same_job : r.job_id ≡ s.job_id
  pub same_step : r.current_step ≡ s.current_step
  pub same_status : r.status ≡ s.status
  pub same_error : r.error ≡ s.error
  pub same_accumulator : r.accumulator ≡ s.accumulator

-- The row of a job is there, and holds the progress of `s`.
pub record Persisted {D : Type 0} (repo : Repository D) (d : D) (s : WorkflowState) : Type 0 where
  pub row : WorkflowState
  pub found : repo.get d s.job_id ≡ ok row
  pub same : SameProgress row s

pub record RepositoryLaws {D : Type 0} (repo : Repository D) : Type 0 where
  -- a row that was updated is read back
  pub get-update_step :
      (d : D) (s : WorkflowState)
      → (repo.update_step d s).1 ≡ none
      → Persisted repo (repo.update_step d s).0 s
  -- an update touches no other job
  pub get-update_step_ne :
      (d : D) (s : WorkflowState) (job : ℕ)
      → (repo.update_step d s).1 ≡ none
      → job ≢ s.job_id
      → repo.get (repo.update_step d s).0 job ≡ repo.get d job
  -- Create fills in the id and the times of the state, and changes nothing else of it
  pub create_fills :
      (d : D) (s : WorkflowState)
      → (repo.create d s).2 ≡ none
      → (repo.create d s).1 ≡ restamp (repo.create d s).1 s
  -- a new row is read back as the state that Create returns
  pub get-create :
      (d : D) (s : WorkflowState)
      → (repo.create d s).2 ≡ none
      → s.current_step ≡ 0
      → s.error ≡ []
      → (repo.get (repo.create d s).0 s.job_id ≡ ok (repo.create d s).1)
        × SameProgress (repo.create d s).1 s
  -- nor does a creation
  pub get-create_ne :
      (d : D) (s : WorkflowState) (job : ℕ)
      → (repo.create d s).2 ≡ none
      → job ≢ s.job_id
      → repo.get (repo.create d s).0 job ≡ repo.get d job
  -- a row that is read belongs to the job that was asked for
  pub get-job_id : (d : D) (job : ℕ) (r : WorkflowState) → repo.get d job ≡ ok r → r.job_id ≡ job

-- The database is reachable: no update of a row that is there fails, where the accumulator and the
-- error text are such as the columns take. PostgreSQL refuses the character NUL in both, and bytes in
-- the text that are not UTF-8. What is read from a row was taken before. (The step index is below the
-- number of steps, which fits an INT.)
pub record IsAvailable {D : Type 0} (repo : Repository D) : Type 1 where
  pub TakesData : Accumulator → Type 0
  pub TakesText : Bytes → Type 0
  pub takes_no_text : TakesText []
  pub get-TakesData :
      (d : D) (job : ℕ) (r : WorkflowState) → repo.get d job ≡ ok r → TakesData r.accumulator
  pub update_succeeds :
      (d : D) (s r : WorkflowState)
      → repo.get d s.job_id ≡ ok r
      → TakesData s.accumulator
      → TakesText s.error
      → (repo.update_step d s).1 ≡ none

-- A step whose output the columns take, if they take what it starts with, and whose errors have
-- texts that they take.
pub record KeepsStorable (unicode_lower : Bytes → Bytes) {D W : Type 0} {repo : Repository D}
    (available : IsAvailable repo) (step : Step W) : Type 0 where
  pub keeps_data :
      (w : W) (s : WorkflowState)
      → available.TakesData s.accumulator
      → available.TakesData (step.run w s).1.accumulator
  pub fails_text :
      (w : W) (s : WorkflowState) (e : GoError) (text : Bytes)
      → (step.run w s).2 ≡ some e
      → error_text unicode_lower e ≡ some text
      → available.TakesText text
