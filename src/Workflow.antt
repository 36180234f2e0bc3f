-- ===== src/Workflow.antt =====
-- internal/workflow: the state of a workflow, its repository, the steps and the runner.
pub mod State
pub mod Step
pub mod Repository
pub mod Database
pub mod Pgx
pub mod Runner
