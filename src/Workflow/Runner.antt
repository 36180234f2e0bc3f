-- ===== src/Workflow/Runner.antt =====
-- internal/workflow/runner.go. The logger is left out. A run returns the database, the outside
-- world and how it ended: an error value, none for nil, or the panic of an Error method.
pub mod Execute
mod Rounds
pub mod Refines
pub mod Resume
pub mod Sound
pub mod Isolated
pub mod Done
pub mod Restart
use hbs_queue.Errors.{GoError, ok, err, wrap, wrap_two, is_err_not_found}
use hbs_queue.Errors.Text.{error_text}
use hbs_queue.Prelude.{
  ℕ, suc, String, true, false, Option, none, some, List, [], ◌∷◌, ◌++◌, Bytes, codes, decimal, ltb,
}
use hbs_queue.Workflow.Repository.{Repository}
use hbs_queue.Workflow.State.{pending, running, completed, failed, Accumulator, WorkflowState}
use hbs_queue.Workflow.Step.{Step}

pub data Outcome : Type 0 where
  returned : Option GoError → Outcome
  panicked : Outcome

pub record Ran (D W : Type 0) : Type 0 where
  pub db : D
  pub world : W
  pub outcome : Outcome

-- The state that Run builds where the job has no row; its id and times are Go's zero values.
abbrev pub new_state : ℕ → String → String → Accumulator → WorkflowState
new_state job_id workflow_type client_id initial_data = record {
  id = "";
  job_id = job_id;
  workflow_type = workflow_type;
  client_id = client_id;
  order_id = "";
  current_step = 0;
  status = pending;
  error = [];
  accumulator = initial_data;
  created_at = 0;
  updated_at = 0;
}

abbrev pub marked_running : WorkflowState → WorkflowState
marked_running s = record s { status = running; error = [] }

module _ (unicode_lower : Bytes → Bytes) {D W : Type 0} (repo : Repository D) where
  -- A failed step: persist the failure, and return the step's error.
  unfoldable pub fail_step : GoError → WorkflowState → D → W → Ran D W
  unfolding error_text
  fail_step e s d w = elim (error_text unicode_lower e) [
    | none ↦ record { db = d; world = w; outcome = panicked }
    | some text ↦
        let (d', result) = repo.update_step d (record s { status = failed; error = text }) in
        elim result [
          | some update_err ↦ record {
            db = d';
            world = w;
            outcome = returned (
                some (
                  wrap_two (codes "update failed state: ") update_err (codes " (step error: ") e
                    (codes ")")));
          }
          | none ↦ record { db = d'; world = w; outcome = returned (some e) }
        ]
  ]

  -- After the loop.
  unfoldable pub complete : WorkflowState → D → W → Ran D W
  complete s d w =
      let (d', result) = repo.update_step d (record s { status = completed }) in
      elim result [
        | some e ↦ record {
          db = d';
          world = w;
          outcome = returned (some (wrap (codes "update status to completed: ") e));
        }
        | none ↦ record { db = d'; world = w; outcome = returned none }
      ]

  -- The loop over the steps from index `i`.
  unfoldable pub run_steps : ℕ → List (Step W) → WorkflowState → D → W → Ran D W
  unfolding fail_step complete decimal
  run_steps i [] s d w = complete s d w
  run_steps i (step ∷ steps) s d w = elim (ltb i s.current_step) [
    | true ↦ run_steps (suc i) steps s d w
    | false ↦
        let (w', s', result) = step.run w s in
        elim result [
          | some e ↦ fail_step e s' d w'
          | none ↦
              let advanced = record s' { current_step = suc i } in
              let (d', updated) = repo.update_step d advanced in
              elim updated [
                | some e ↦ record {
                  db = d';
                  world = w';
                  outcome =
                      returned (some (wrap (codes "update step " ++ (decimal i ++ codes ": ")) e));
                }
                | none ↦ run_steps (suc i) steps advanced d' w'
              ]
        ]
  ]

  -- From the loaded or created state on.
  unfoldable pub start : List (Step W) → WorkflowState → D → W → Ran D W
  unfolding run_steps
  start steps s d w =
      let (d', result) = repo.update_step d (marked_running s) in
      elim result [
        | some e ↦ record {
          db = d';
          world = w;
          outcome = returned (some (wrap (codes "update status to running: ") e));
        }
        | none ↦ run_steps 0 steps (marked_running s) d' w
      ]

  -- (*Runner).Run
  unfoldable pub run :
      List (Step W)
      → (job_id : ℕ) (workflow_type client_id : String) (initial_data : Accumulator) → D
      → W
      → Ran D W
  unfolding start is_err_not_found
  run steps job_id workflow_type client_id initial_data d w = elim (repo.get d job_id) [
    | ok s ↦ start steps s d w
    | err e ↦ elim (is_err_not_found e) [
      | false ↦ record {
        db = d;
        world = w;
        outcome = returned (some (wrap (codes "load workflow state: ") e));
      }
      | true ↦
          let (d', s, result) =
            repo.create d (new_state job_id workflow_type client_id initial_data) in
          elim result [
            | some e' ↦ record {
              db = d';
              world = w;
              outcome = returned (some (wrap (codes "create workflow state: ") e'));
            }
            | none ↦ start steps s d' w
          ]
    ]
  ]
