-- ===== src/Workflow/Step.antt =====
-- internal/workflow/step.go: the interface of a step and the mark of a permanent failure.
use hbs_queue.Errors.{GoError, message, not_found, no_rows, permanent, api, wrap, wrap_two}
use hbs_queue.Prelude.{String, ◌≡◌, Bool, true, false, ◌||◌, Option}
use hbs_queue.Workflow.State.{WorkflowState}

-- `W` is the outside world that the steps act on. Run returns it with the state as the step left
-- it and the error, none for nil.
pub record Step (W : Type 0) : Type 0 where
  pub name : String
  pub run : W → WorkflowState → W × WorkflowState × Option GoError

-- "It may mutate state.Data to record output. It must not mutate CurrentStep or Status": nor the
-- job that the state belongs to.
pub record KeepsContract {W : Type 0} (step : Step W) : Type 0 where
  pub keeps_job_id : (w : W) (s : WorkflowState) → (step.run w s).1.job_id ≡ s.job_id
  pub keeps_current_step :
      (w : W) (s : WorkflowState) → (step.run w s).1.current_step ≡ s.current_step
  pub keeps_status : (w : W) (s : WorkflowState) → (step.run w s).1.status ≡ s.status
  pub keeps_error : (w : W) (s : WorkflowState) → (step.run w s).1.error ≡ s.error

-- errors.As(err, &pe)
unfoldable pub is_permanent : GoError → Bool
is_permanent (message m) = false
is_permanent not_found = false
is_permanent no_rows = false
is_permanent (permanent e) = true
is_permanent (api a) = false
is_permanent (wrap p e) = is_permanent e
is_permanent (wrap_two p e m f s) = is_permanent e || is_permanent f
