-- ===== src/Workflow/Runner/Done.antt =====
-- The row that a run leaves where it returns nil.
use hbs_queue.Errors.{ok}
use hbs_queue.Prelude.{
  ℕ, ◌≡◌, refl, sym, subst, ap, ◌∙◌, inl, inr, none, String, List, Bytes, drop, length, length-drop,
  All, All-drop, arith,
}
use hbs_queue.Workflow.Repository.{Repository, RepositoryLaws}
use hbs_queue.Workflow.Runner.Execute.{execute, execute-Keeps}
use hbs_queue.Workflow.Runner.Resume.{drop_all}
use hbs_queue.Workflow.Runner.Sound.{run_nil-Completes}
use hbs_queue.Workflow.Runner.{returned, new_state, marked_running, run}
use hbs_queue.Workflow.State.{Accumulator, WorkflowState, completed}
use hbs_queue.Workflow.Step.{Step, KeepsContract}

-- The row of a workflow of `n` steps is done: completed, with each step counted.
abbrev pub IsDone : ℕ → WorkflowState → Type 0
IsDone n r = (r.status ≡ completed) × (r.current_step ≡ n)

module _ (unicode_lower : Bytes → Bytes) {D W : Type 0} (repo : Repository D)
    (laws : RepositoryLaws repo) (steps : List (Step W)) (contract : All KeepsContract steps)
    (job_id : ℕ) (workflow_type client_id : String) (initial_data : Accumulator) where
  -- A run that returns nil, of a job that has no row or a row that is done, leaves a row that is
  -- done; one that was there before keeps its accumulator.
  pub run_nil-IsDone :
      (d : D) (w : W)
      → ((s : WorkflowState) → repo.get d job_id ≡ ok s → IsDone (length steps) s)
      → let ran = run unicode_lower repo steps job_id workflow_type client_id initial_data d w in
        ran.outcome ≡ returned none
        → (r : WorkflowState) × (repo.get ran.db job_id ≡ ok r)
          × IsDone (length steps) r
          × ((s : WorkflowState) → repo.get d job_id ≡ ok s → r.accumulator ≡ s.accumulator)
  unfolding execute
  run_nil-IsDone d w done nil =
      let ran = run unicode_lower repo steps job_id workflow_type client_id initial_data d w in
      let (s, origin, (w', s', e, _, there)) =
        run_nil-Completes unicode_lower repo laws steps job_id workflow_type client_id initial_data
          d w nil in
      let (job, _, _, step) = rw e at (
        execute-Keeps s.current_step (drop s.current_step steps) (marked_running s) w
          (All-drop KeepsContract s.current_step steps contract) refl) in
      let end = length-drop {0} s.current_step steps in
      let row_of : s.job_id ≡ job_id → repo.get ran.db job_id ≡ ok there.row =
        λ own. subst (λ j. repo.get ran.db j ≡ ok there.row) (job ∙ own) there.found in
      elim origin [
        | inl found ↦
            let past = drop_all s.current_step steps (omega (arith, (done s found).1)) in
            let same : s'.accumulator ≡ s.accumulator = let ends = rw past at e in cc in
            (
              there.row,
              row_of (laws.get-job_id d job_id s found),
              (there.same.same_status, omega (arith, there.same.same_step, (done s found).1)),
              λ t again. there.same.same_accumulator ∙ same ∙ (let one = sym found ∙ again in cc),
            )
        | inr (x, missing, _, made, created) ↦
            let (_, fresh) =
              laws.get-create d (new_state job_id workflow_type client_id initial_data) made refl
                refl in
            (
              there.row,
              row_of (ap (λ t. t.job_id) created ∙ fresh.same_job),
              (
                there.same.same_status,
                omega (
                  arith,
                  there.same.same_step,
                  fresh.same_step,
                  ap (λ t. t.current_step) created,
                ),
              ),
              λ t again. absurd (let bad = sym missing ∙ again in cc),
            )
      ]
