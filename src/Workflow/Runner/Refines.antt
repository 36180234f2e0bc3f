-- ===== src/Workflow/Runner/Refines.antt =====
-- The runner implements the reference execution, and persists what it reached.
use hbs_queue.Errors.{GoError, ok}
use hbs_queue.Errors.Text.{error_text}
use hbs_queue.Prelude.{
  ℕ, suc, ◌≤◌, ◌≡◌, refl, sym, subst, Option, none, some, List, [], ◌∷◌, Bytes, drop, All, All-drop,
  arith, inl, inr, Option-cases,
}
use native.Mathlib.Nat.{zero-add}
use hbs_queue.Workflow.Repository.{
  Repository, Persisted, RepositoryLaws, IsAvailable, KeepsStorable,
}
use hbs_queue.Workflow.Runner.Execute.{
  Progress, finished, stopped, execute, advanced, execute-advanced, execute_stopped,
}
use hbs_queue.Workflow.Runner.Rounds.{round_failed, round_advanced, run_steps_skip}
use hbs_queue.Workflow.Runner.{
  returned, panicked, Ran, marked_running, fail_step, complete, run_steps, start,
}
use hbs_queue.Workflow.State.{completed, failed, WorkflowState}
use hbs_queue.Workflow.Step.{Step, KeepsContract}

module _ (unicode_lower : Bytes → Bytes) {D W : Type 0} (repo : Repository D) where
  -- How a failed step shows, by the text of its error: the error itself comes back and the failure
  -- is persisted with its text, or the Error method panics.
  abbrev pub AgreesFailure : Option Bytes → GoError → W → WorkflowState → Ran D W → Type 0
  AgreesFailure none e w s ran = (ran.outcome ≡ panicked) × (ran.world ≡ w)
  AgreesFailure (some text) e w s ran =
      (ran.outcome ≡ returned (some e))
      × (ran.world ≡ w)
      × Persisted repo ran.db (record s { status = failed; error = text })

  -- A run ends as the execution does, with the same effects on the world, and the row of the job
  -- holds the state that was reached.
  abbrev pub Agrees : Progress W → Ran D W → Type 0
  Agrees (finished w s) ran =
      (ran.outcome ≡ returned none)
      × (ran.world ≡ w)
      × Persisted repo ran.db (record s { status = completed })
  Agrees (stopped e w s) ran = AgreesFailure (error_text unicode_lower e) e w s ran

  module _ (laws : RepositoryLaws repo) (available : IsAvailable repo) where
    complete-Agrees :
        (s r : WorkflowState) (d : D) (w : W)
        → repo.get d s.job_id ≡ ok r
        → available.TakesData s.accumulator
        → available.TakesText s.error
        → Agrees (finished w s) (complete unicode_lower repo s d w)
    unfolding complete
    complete-Agrees s r d w found fits text =
        let e = available.update_succeeds d (record s { status = completed }) r found fits text in
        rw (e, complete) (refl, refl, laws.get-update_step d _ e)

    fail_step-Agrees :
        (x : GoError) (s r : WorkflowState) (d : D) (w : W)
        → repo.get d s.job_id ≡ ok r
        → available.TakesData s.accumulator
        → ((text : Bytes) → error_text unicode_lower x ≡ some text → available.TakesText text)
        → Agrees (stopped x w s) (fail_step unicode_lower repo x s d w)
    unfolding fail_step
    fail_step-Agrees x s r d w found fits texts = elim (Option-cases (error_text unicode_lower x)) [
      | inl quiet ↦ rw (quiet, fail_step) (refl, refl)
      | inr (text, told) ↦
          let e =
            available.update_succeeds d (record s { status = failed; error = text }) r found fits
              (texts text told) in
          rw (told, fail_step) (rw (e, fail_step) (refl, refl, laws.get-update_step d _ e))
    ]

    run_steps-Agrees :
        (i : ℕ) (steps : List (Step W)) (s r : WorkflowState) (d : D) (w : W)
        → All KeepsContract steps
        → All (KeepsStorable unicode_lower available) steps
        → s.current_step ≤ i
        → repo.get d s.job_id ≡ ok r
        → available.TakesData s.accumulator
        → available.TakesText s.error
        → Agrees (execute i steps s w) (run_steps unicode_lower repo i steps s d w)
    run_steps-Agrees i [] s r d w c k h found fits text =
        unfold execute run_steps in complete-Agrees s r d w found fits text
    run_steps-Agrees i (step ∷ steps) s r d w (c, cs) (k, ks) h found fits text =
        let fits' = k.keeps_data w s fits in
        let text' = subst available.TakesText (sym (c.keeps_error w s)) text in
        let kept : repo.get d (step.run w s).1.job_id ≡ ok r = rw (c.keeps_job_id w s) found in
        elim (Option-cases (step.run w s).2) [
          | inl e ↦
              let u = available.update_succeeds d (advanced step i s w) r kept fits' text' in
              let there = laws.get-update_step d (advanced step i s w) u in
              rw
                (
                  execute-advanced i step steps s w e,
                  round_advanced unicode_lower repo i step steps s d w h e u,
                )
                (run_steps-Agrees (suc i) steps (advanced step i s w) there.row _ (step.run w s).0
                  cs ks (omega arith) there.found fits' text')
          | inr (x, e) ↦
              rw
                (
                  execute_stopped i step steps s w e,
                  round_failed unicode_lower repo i step steps s d w h e,
                )
                (fail_step-Agrees x (step.run w s).1 r d (step.run w s).0 kept fits'
                  (λ t. k.fails_text w s x t e))
        ]

    -- From a loaded row on: the run does what the execution of the steps from the row's current
    -- step on does.
    pub start-Agrees :
        (steps : List (Step W)) (s : WorkflowState) (d : D) (w : W)
        → All KeepsContract steps
        → All (KeepsStorable unicode_lower available) steps
        → repo.get d s.job_id ≡ ok s
        → Agrees
            (execute s.current_step (drop s.current_step steps) (marked_running s) w)
            (start unicode_lower repo steps s d w)
    unfolding start
    start-Agrees steps s d w c k found =
        let fits = available.get-TakesData d s.job_id s found in
        let u =
          available.update_succeeds d (marked_running s) s found fits available.takes_no_text in
        let there = laws.get-update_step d (marked_running s) u in
        rw (u, start)
          (rw
            (run_steps_skip unicode_lower repo s.current_step 0 steps (marked_running s) _ w
              (omega arith))
            (rw (zero-add s.current_step) (
              run_steps-Agrees s.current_step (drop s.current_step steps) (marked_running s)
                there.row _ w (All-drop KeepsContract s.current_step steps c)
                (All-drop (KeepsStorable unicode_lower available) s.current_step steps k)
                (omega arith) there.found fits available.takes_no_text)))
