-- ===== src/Workflow/Runner/Rounds.antt =====
-- The loop of the runner by equations: a round that is skipped, that fails, and that advances.
use hbs_queue.Errors.{GoError}
use hbs_queue.Prelude.{
  ℕ, zero, suc, ◌+◌, ◌≤◌, ◌<◌, ◌≡◌, refl, ◌∙◌, ap, none, some, List, [], ◌∷◌, Bytes, drop, arith,
  lt→ltb, le→not_ltb,
}
use hbs_queue.Workflow.Repository.{Repository}
use hbs_queue.Workflow.Runner.Execute.{advanced}
use hbs_queue.Workflow.Runner.{fail_step, run_steps}
use hbs_queue.Workflow.State.{WorkflowState}
use hbs_queue.Workflow.Step.{Step}

module _ (unicode_lower : Bytes → Bytes) {D W : Type 0} (repo : Repository D) where
  -- One round of the loop: a step below the current one is skipped, and any other is run.
  module _ (i : ℕ) (step : Step W) (steps : List (Step W)) (s : WorkflowState) (d : D) (w : W) where
    pub round_skipped :
        i < s.current_step
        → run_steps unicode_lower repo i (step ∷ steps) s d w
          ≡ run_steps unicode_lower repo (suc i) steps s d w
    unfolding run_steps
    round_skipped h = rw (lt→ltb i s.current_step h, run_steps)

    pub round_failed :
        {x : GoError}
        → s.current_step ≤ i
        → (step.run w s).2 ≡ some x
        → run_steps unicode_lower repo i (step ∷ steps) s d w
          ≡ fail_step unicode_lower repo x (step.run w s).1 d (step.run w s).0
    unfolding run_steps
    round_failed h e = rw (le→not_ltb i s.current_step h, run_steps) (rw (e, run_steps))

    pub round_advanced :
        s.current_step ≤ i
        → (step.run w s).2 ≡ none
        → (repo.update_step d (advanced step i s w)).1 ≡ none
        → run_steps unicode_lower repo i (step ∷ steps) s d w
          ≡ run_steps unicode_lower repo
              (suc i)
              steps
              (advanced step i s w)
              (repo.update_step d (advanced step i s w)).0
              (step.run w s).0
    unfolding run_steps
    round_advanced h e u =
        rw (le→not_ltb i s.current_step h, run_steps) (rw (e, run_steps) (rw (u, run_steps)))

  -- The steps below the current one are skipped.
  pub run_steps_skip :
      (n i : ℕ) (steps : List (Step W)) (s : WorkflowState) (d : D) (w : W)
      → i + n ≤ s.current_step
      → run_steps unicode_lower repo i steps s d w
        ≡ run_steps unicode_lower repo (i + n) (drop n steps) s d w
  unfolding run_steps
  run_steps_skip zero i steps s d w h =
      ap (λ j. run_steps unicode_lower repo j steps s d w) (omega arith)
  run_steps_skip (suc n) i [] s d w h = refl
  run_steps_skip (suc n) i (step ∷ steps) s d w h =
      round_skipped i step steps s d w (omega arith)
      ∙ run_steps_skip n (suc i) steps s d w (omega arith)
      ∙ ap (λ j. run_steps unicode_lower repo j (drop n steps) s d w) (omega arith)
