-- ===== src/Workflow/Runner/Restart.antt =====
-- Running a workflow from its first step again after it stopped. internal/workflow/step.go and
-- runner.go ask for steps that are idempotent; what for shows here.
use hbs_queue.Errors.{GoError}
use hbs_queue.Prelude.{
  ℕ, suc, ◌+◌, ◌≡◌, refl, sym, ap, ◌∙◌, inl, inr, subst, Option, none, some, List, [], ◌∷◌, drop,
  All, arith, Option-cases,
}
use hbs_queue.Workflow.Runner.Execute.{
  Progress, finished, stopped, execute, advanced, execute-advanced, execute_stopped,
}
use hbs_queue.Workflow.Repository.{restamp}
use hbs_queue.Workflow.State.{WorkflowState}
use hbs_queue.Workflow.Step.{Step}

-- "Implementations must be idempotent", for the steps that are `Known`: a step that succeeded on a
-- state is applied with its output, stays so whatever other steps do, fail or not, and where it is
-- applied, to run it on that state gives the same output and changes nothing. The next attempt gets a
-- new row, so this holds for the state with any other id and times, which the output keeps.
pub record IsIdempotent {W : Type 0} (Known : Step W → Type 0) : Type 1 where
  pub Applied : Step W → WorkflowState → WorkflowState → W → Type 0
  pub applies :
      (step : Step W) (s : WorkflowState) (w : W)
      → Known step
      → (step.run w s).2 ≡ none
      → Applied step s (step.run w s).1 (step.run w s).0
  pub stays :
      (step other : Step W) (s output t : WorkflowState) (w : W)
      → Known other
      → Applied step s output w
      → Applied step s output (other.run w t).0
  pub again :
      (step : Step W) (s output stamp : WorkflowState) (w : W)
      → Applied step s output w
      → step.run w (restamp stamp s) ≡ (w, restamp stamp output, none)

-- The parts of an execution that stopped.
module _ {W : Type 0} where
  abbrev left_world : W → Progress W → W
  left_world w (finished _ _) = w
  left_world _ (stopped _ w _) = w

  abbrev left_state : WorkflowState → Progress W → WorkflowState
  left_state s (finished _ _) = s
  left_state _ (stopped _ _ s) = s

  abbrev left_error : Option GoError → Progress W → Option GoError
  left_error e (finished _ _) = e
  left_error _ (stopped e _ _) = some e

-- The execution stopped at the step `done` steps on, and to begin it again, in the world `w'` that
-- it left and with the id and the times of `stamp`, comes to that step with nothing done on the way
-- and the state that it had there, but for the id and the times.
pub record Restarts {W : Type 0} (i : ℕ) (steps : List (Step W)) (s stamp : WorkflowState)
    (e : GoError) (w' : W) (s' : WorkflowState) : Type 0 where
  pub done : ℕ
  pub step : Step W
  pub rest : List (Step W)
  pub at_step : drop done steps ≡ step ∷ rest
  pub state : WorkflowState
  pub world : W
  pub failed : step.run world state ≡ (w', s', some e)
  pub again :
      execute i steps (restamp stamp s) w'
      ≡ execute (i + done) (step ∷ rest) (restamp stamp state) w'

module _ {W : Type 0} (i : ℕ) (step : Step W) (steps : List (Step W)) (s stamp : WorkflowState)
    {e : GoError} {w' : W} {s' : WorkflowState} where
  -- An execution whose first step fails.
  Restarts-here :
      (w : W) {x : GoError}
      → (step.run w s).2 ≡ some x
      → execute i (step ∷ steps) s w ≡ stopped e w' s'
      → Restarts i (step ∷ steps) s stamp e w' s'
  Restarts-here w fails stop =
      let ends = sym (execute_stopped i step steps s w fails) ∙ stop in
      record {
        done = 0;
        step = step;
        rest = steps;
        at_step = refl;
        state = s;
        world = w;
        failed = λ j. (
          ap (left_world w) ends j,
          ap (left_state s) ends j,
          (fails ∙ ap (left_error none) ends) j,
        );
        again = ap (λ j. execute j (step ∷ steps) (restamp stamp s) w') (omega arith);
      }

  -- One whose first step succeeds, and does nothing when it is run again at the end.
  Restarts-later :
      (output : WorkflowState)
      → step.run w' (restamp stamp s) ≡ (w', restamp stamp output, none)
      → Restarts (suc i) steps (record output { current_step = suc i }) stamp e w' s'
      → Restarts i (step ∷ steps) s stamp e w' s'
  Restarts-later output same r = record {
    done = suc r.done;
    step = r.step;
    rest = r.rest;
    at_step = r.at_step;
    state = r.state;
    world = r.world;
    failed = r.failed;
    again =
        execute-advanced i step steps (restamp stamp s) w' (ap (λ x. x.2) same)
        ∙ ap (λ x. execute (suc i) steps (record x.1 { current_step = suc i }) x.0) same
        ∙ r.again
        ∙ ap (λ j. execute j (r.step ∷ r.rest) (restamp stamp r.state) w') (omega arith);
  }

module _ {W : Type 0} (Known : Step W → Type 0) (idempotent : IsIdempotent Known) where
  Applied-stays :
      (first : Step W) (s output : WorkflowState) (i : ℕ) (steps : List (Step W))
      (t : WorkflowState) (w : W) {e : GoError} {w' : W} {s' : WorkflowState}
      → All Known steps
      → execute i steps t w ≡ stopped e w' s'
      → idempotent.Applied first s output w
      → idempotent.Applied first s output w'
  unfolding execute
  Applied-stays first s output i [] t w known stop applied = absurd (let bad = stop in cc)
  Applied-stays first s output i (step ∷ steps) t w (k, known) stop applied =
      let kept = idempotent.stays first step s output t w k applied in
      elim (Option-cases (step.run w t).2) [
        | inl e ↦
            Applied-stays first s output (suc i) steps (advanced step i t w) (step.run w t).0 known
              (sym (execute-advanced i step steps t w e) ∙ stop) kept
        | inr (x, e) ↦
            let ends = sym (execute_stopped i step steps t w e) ∙ stop in
            subst (idempotent.Applied first s output) (ap (left_world w) ends) kept
      ]

  pub execute-Restarts :
      (i : ℕ) (steps : List (Step W)) (s stamp : WorkflowState) (w : W) {e : GoError} {w' : W}
      {s' : WorkflowState}
      → All Known steps
      → execute i steps s w ≡ stopped e w' s'
      → Restarts i steps s stamp e w' s'
  unfolding execute
  execute-Restarts i [] s stamp w known stop = absurd (let bad = stop in cc)
  execute-Restarts i (step ∷ steps) s stamp w {w'} (k, known) stop =
      elim (Option-cases (step.run w s).2) [
        | inr (x, e) ↦ Restarts-here i step steps s stamp w e stop
        | inl e ↦
            let rest_stops = sym (execute-advanced i step steps s w e) ∙ stop in
            let same = idempotent.again step s (step.run w s).1 stamp w' (
              Applied-stays step s (step.run w s).1 (suc i) steps (advanced step i s w)
                (step.run w s).0 known rest_stops (idempotent.applies step s w k e)) in
            Restarts-later i step steps s stamp (step.run w s).1 same (
              execute-Restarts (suc i) steps (advanced step i s w) stamp (step.run w s).0 known
                rest_stops)
      ]
