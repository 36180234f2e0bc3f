-- ===== src/Workflow/Runner/Isolated.antt =====
-- Which rows a run of internal/workflow/runner.go writes to.
use native.Mathlib.Nat.{zero-add}
use hbs_queue.Errors.{is_err_not_found, Result-cases}
use hbs_queue.Prelude.{
  ℕ, suc, ◌≤◌, ◌≡◌, ◌≢◌, refl, ◌∙◌, inl, inr, none, String, List, [], ◌∷◌, Bytes, drop, All,
  All-drop, arith, Option-cases, Bool-cases,
}
use hbs_queue.Workflow.Repository.{Repository, RepositoryLaws}
use hbs_queue.Workflow.Runner.Execute.{advanced}
use hbs_queue.Workflow.Runner.Rounds.{round_failed, round_advanced, run_steps_skip}
use hbs_queue.Workflow.Runner.Sound.{fail_step-ne-nil, round_unsaved}
use hbs_queue.Workflow.Runner.{returned, new_state, marked_running, complete, run_steps, start, run}
use hbs_queue.Workflow.State.{Accumulator, WorkflowState, completed}
use hbs_queue.Workflow.Step.{Step, KeepsContract}

-- One or more writes that succeeded, all of them to the row of the job, lead from one content of the
-- database to another.
pub data Wrote {D : Type 0} (repo : Repository D) (job : ℕ) : D → D → Type 0 where
  created :
      (d : D) (s : WorkflowState)
      → s.job_id ≡ job
      → (repo.create d s).2 ≡ none
      → s.current_step ≡ 0
      → s.error ≡ []
      → Wrote repo job d (repo.create d s).0
  updated :
      (d : D) (s : WorkflowState)
      → s.job_id ≡ job
      → (repo.update_step d s).1 ≡ none
      → Wrote repo job d (repo.update_step d s).0
  then_wrote : {c d e : D} → Wrote repo job c d → Wrote repo job d e → Wrote repo job c e

pub Wrote_ne :
    {D : Type 0} (repo : Repository D) (laws : RepositoryLaws repo) (job : ℕ) (k : ℕ) {d e : D}
    → k ≢ job
    → Wrote repo job d e
    → repo.get e k ≡ repo.get d k
Wrote_ne repo laws job k other (created d s own nil _ _) =
    laws.get-create_ne d s k nil (λ same. other (same ∙ own))
Wrote_ne repo laws job k other (updated d s own nil) =
    laws.get-update_step_ne d s k nil (λ same. other (same ∙ own))
Wrote_ne repo laws job k other (then_wrote p q) =
    Wrote_ne repo laws job k other q ∙ Wrote_ne repo laws job k other p

module _ (unicode_lower : Bytes → Bytes) {D W : Type 0} (repo : Repository D) (job : ℕ) where
  complete-Wrote :
      (s : WorkflowState) (d : D) (w : W)
      → s.job_id ≡ job
      → (complete unicode_lower repo s d w).outcome ≡ returned none
      → Wrote repo job d (complete unicode_lower repo s d w).db
  unfolding complete
  complete-Wrote s d w own nil =
      elim (Option-cases (repo.update_step d (record s { status = completed })).1) [
        | inl e ↦ rw (e, complete) (updated d _ own e)
        | inr (x, e) ↦ absurd (let bad = rw (e, complete) at nil in cc)
      ]

  run_steps-Wrote :
      (i : ℕ) (steps : List (Step W)) (s : WorkflowState) (d : D) (w : W)
      → All KeepsContract steps
      → s.current_step ≤ i
      → s.job_id ≡ job
      → (run_steps unicode_lower repo i steps s d w).outcome ≡ returned none
      → Wrote repo job d (run_steps unicode_lower repo i steps s d w).db
  run_steps-Wrote i [] s d w c h own nil = unfold run_steps in complete-Wrote s d w own nil
  run_steps-Wrote i (step ∷ steps) s d w (c, cs) h own nil = elim (Option-cases (step.run w s).2) [
    | inr (x, e) ↦ absurd (
        fail_step-ne-nil unicode_lower repo x (step.run w s).1 d (step.run w s).0
          (rw (round_failed unicode_lower repo i step steps s d w h e) at nil))
    | inl e ↦ elim (Option-cases (repo.update_step d (advanced step i s w)).1) [
      | inr (x, u) ↦ absurd (round_unsaved unicode_lower repo i step steps s d w h e u nil)
      | inl u ↦
          let round = round_advanced unicode_lower repo i step steps s d w h e u in
          let kept = c.keeps_job_id w s ∙ own in
          rw round (
            then_wrote (updated d (advanced step i s w) kept u) (
              run_steps-Wrote (suc i) steps (advanced step i s w) _ (step.run w s).0 cs
                (omega arith) kept (rw round at nil)))
    ]
  ]

  start-Wrote :
      (steps : List (Step W)) (s : WorkflowState) (d : D) (w : W)
      → All KeepsContract steps
      → s.job_id ≡ job
      → (start unicode_lower repo steps s d w).outcome ≡ returned none
      → Wrote repo job d (start unicode_lower repo steps s d w).db
  unfolding start
  start-Wrote steps s d w c own nil =
      elim (Option-cases (repo.update_step d (marked_running s)).1) [
        | inr (x, u) ↦ absurd (let bad = rw (u, start) at nil in cc)
        | inl u ↦
            let skip =
              run_steps_skip unicode_lower repo s.current_step 0 steps (marked_running s)
                (repo.update_step d (marked_running s)).0 w (omega arith) in
            let nil' = rw (zero-add s.current_step) at (rw skip at (rw (u, start) at nil)) in
            rw (u, start)
              (rw skip (
                rw (zero-add s.current_step) (
                  then_wrote (updated d (marked_running s) own u) (
                    run_steps-Wrote s.current_step (drop s.current_step steps) (marked_running s) _
                      w (All-drop KeepsContract s.current_step steps c) (omega arith) own nil'))))
      ]

  -- A run that returns nil has written to the row of its job, and to no other, whatever the steps
  -- do as long as they keep the contract.
  pub run-Wrote :
      RepositoryLaws repo
      → (steps : List (Step W)) (workflow_type client_id : String) (initial_data : Accumulator)
        (d : D) (w : W)
      → All KeepsContract steps
      → let ran = run unicode_lower repo steps job workflow_type client_id initial_data d w in
        ran.outcome ≡ returned none → Wrote repo job d ran.db
  unfolding run
  run-Wrote laws steps workflow_type client_id initial_data d w c nil =
      let fresh = new_state job workflow_type client_id initial_data in
      elim (Result-cases (repo.get d job)) [
        | inl (s, e) ↦
            rw (e, run) (start-Wrote steps s d w c (laws.get-job_id d job s e) (rw (e, run) at nil))
        | inr (x, e) ↦
            let nil₁ = rw (e, run) at nil in
            elim (Bool-cases (is_err_not_found x)) [
              | inr wrong ↦ absurd (let bad = rw (wrong, run) at nil₁ in cc)
              | inl missing ↦
                  let nil₂ = rw (missing, run) at nil₁ in
                  elim (Option-cases (repo.create d fresh).2) [
                    | inr (y, u) ↦ absurd (let bad = rw (u, run) at nil₂ in cc)
                    | inl u ↦
                        let (_, made) = laws.get-create d fresh u refl refl in
                        rw (e, run)
                          (rw (missing, run)
                            (rw (u, run)
                              (then_wrote (created d fresh refl u refl refl) (
                                start-Wrote steps (repo.create d fresh).1 (repo.create d fresh).0 w
                                  c made.same_job (rw (u, run) at nil₂)))))
                  ]
            ]
      ]
