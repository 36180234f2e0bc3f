-- ===== src/Scenarios/Attempts.antt =====
-- Several attempts at onboard_org jobs over a database in memory.
use hbs_queue.Errors.{GoError, message, not_found, is_err_not_found}
use hbs_queue.Jobs.OnboardOrg.Atomic.{work_isolated}
use hbs_queue.Jobs.OnboardOrg.Backlog.{Job, HasWorked, work_all, work_all_completes}
use hbs_queue.Jobs.OnboardOrg.Restart.{work-Restarts}
use hbs_queue.Jobs.OnboardOrg.Transaction.{onboard_org_steps-KeepsContract}
use hbs_queue.Jobs.OnboardOrg.{
  fits_columns, fields, member, args_to_data, onboard_org_steps, finish_tx, work_steps,
}
use hbs_queue.Prelude.{
  ℕ, ◌≤◌, ◌≡◌, refl, none, some, List, [], ◌∷◌, Bytes, codes, All, arith, ltb, ◌==◌, if◌then◌else◌,
}
use hbs_queue.Scenarios.Jobs.{args}
use hbs_queue.Scenarios.Store.{
  Store, repo, repo-RepositoryLaws, repo-IsAvailable, pool, pool-PoolLaws, up, repo_later,
  repo_later-RepositoryLaws, repo_later-IsAvailable,
}
use hbs_queue.Workflow.Repository.{KeepsStorable, restamp}
use hbs_queue.Workflow.Runner.Execute.{stopped, execute}
use hbs_queue.Workflow.Runner.Refines.{Agrees}
use hbs_queue.Workflow.Runner.Restart.{IsIdempotent, Restarts}
use hbs_queue.Workflow.Runner.{Ran, new_state, marked_running}
use hbs_queue.Workflow.State.{Accumulator, WorkflowState}
use hbs_queue.Workflow.Step.{Step, KeepsContract}

abbrev lower : Bytes → Bytes
lower s = s

abbrev pub payload : Accumulator
payload = some (member (fields args))

abbrev empty : Store
empty = record { rows = λ job. none; job = none }

abbrev stubs : List (Step ℕ)
stubs = onboard_org_steps

abbrev try_job : ℕ → Store → ℕ → Ran Store ℕ
try_job id s w = work_steps lower pool repo stubs id args s w

abbrev once : Ran Store ℕ
once = try_job 7 empty 0

abbrev twice : Ran Store ℕ
twice = try_job 8 once.db once.world

work_isolated_example : repo.get twice.db 7 ≡ repo.get once.db 7
work_isolated_example =
    work_isolated lower pool pool-PoolLaws repo stubs 8 args once.db once.world repo-RepositoryLaws
      (onboard_org_steps-KeepsContract ℕ) {tx = once.db} {later = twice.db} 7 (λ e. omega arith)
      refl refl

abbrev backlog : List Job
backlog = (7, args) ∷ (8, args) ∷ []

abbrev drained : Store × ℕ
drained = work_all lower pool repo backlog empty 0

work_all_completes_example : (drained.1 ≡ 0) × All (HasWorked repo drained.0) backlog
unfolding is_err_not_found fits_columns
work_all_completes_example =
    work_all_completes lower pool repo pool-PoolLaws repo-RepositoryLaws repo-IsAvailable up backlog
      empty 0 {tx = empty} {later = drained.0} (((λ e. omega arith), tt), (tt, tt))
      ((omega arith, refl), ((omega arith, refl), tt)) refl
      ((not_found, refl, refl), ((not_found, refl, refl), tt)) refl

-- The world counts how far the platform is: 1 where the organization is there, 2 where it has been
-- asked for its network, which it refuses at first.
abbrev ensure_org : Step ℕ
ensure_org = record { name = "ensure_org"; run = λ w s. (if w == 0 then 1 else w, s, none) }

abbrev down : GoError
down = message (codes "down")

abbrev ask_network : Step ℕ
ask_network = record {
  name = "ask_network";
  run = λ w s. if ltb w 2 then (2, s, some down) else (w, s, none);
}

abbrev steps : List (Step ℕ)
steps = ensure_org ∷ ask_network ∷ []

-- A step that goes forward, and once it has succeeded changes nothing from there on, whatever the id
-- and the times of the state.
abbrev IsForward : Step ℕ → Type 0
IsForward step =
    ((w : ℕ) (s : WorkflowState) → w ≤ (step.run w s).0)
    × ((w u : ℕ) (s stamp : WorkflowState)
        → (step.run w s).2 ≡ none
        → (step.run w s).0 ≤ u
        → step.run u (restamp stamp s) ≡ (u, restamp stamp (step.run w s).1, none))

IsForward-IsIdempotent : IsIdempotent IsForward
IsForward-IsIdempotent = record {
  Applied = λ step s output w.
      (u : ℕ) (stamp : WorkflowState)
      → w ≤ u
      → step.run u (restamp stamp s) ≡ (u, restamp stamp output, none);
  applies = λ step s w forward fine u stamp h. forward.1 w u s stamp fine h;
  stays = λ step other s output t w forward applied u stamp h.
      applied u stamp (omega (arith, forward.0 w t, h));
  again = λ step s output stamp w applied. applied w stamp (omega arith);
}

steps-IsForward : All IsForward steps
steps-IsForward = (
  ((λ w s. ground arith), λ w u s stamp fine h. ground arith),
  (((λ w s. ground arith), λ w u s stamp fine h. ground arith), tt),
)

keeps_all : All KeepsContract steps
keeps_all = (
  record {
    keeps_job_id = λ w s. refl;
    keeps_current_step = λ w s. refl;
    keeps_status = λ w s. refl;
    keeps_error = λ w s. refl;
  },
  (
    record {
      keeps_job_id = λ w s. ground arith;
      keeps_current_step = λ w s. ground arith;
      keeps_status = λ w s. ground arith;
      keeps_error = λ w s. ground arith;
    },
    tt,
  ),
)

storable : All (KeepsStorable lower repo-IsAvailable) steps
storable = (
  record { keeps_data = λ w s fits. tt; fails_text = λ w s e text fails told. tt },
  (record { keeps_data = λ w s fits. tt; fails_text = λ w s e text fails told. tt }, tt),
)

storable_later : All (KeepsStorable lower repo_later-IsAvailable) steps
storable_later = (
  record { keeps_data = λ w s fits. tt; fails_text = λ w s e text fails told. tt },
  (record { keeps_data = λ w s fits. tt; fails_text = λ w s e text fails told. tt }, tt),
)

abbrev begun : WorkflowState
begun = marked_running (new_state 7 "onboard_org" "crm-1" payload)

-- The row that the second attempt creates.
abbrev second : WorkflowState
second = record (new_state 7 "onboard_org" "crm-1" payload) {
  id = "second";
  created_at = 9;
  updated_at = 9;
}

stops : execute 0 steps begun 0 ≡ stopped down 2 (record begun { current_step = 1 })
unfolding execute
stops = refl

abbrev first : Ran Store ℕ
first = work_steps lower pool repo steps 7 args empty 0

work-Restarts_example :
    (r : Restarts 0 steps begun second down 2 (record begun { current_step = 1 })) × (ran : Ran
      Store ℕ)
    × (work_steps lower pool repo_later steps 7 args first.db first.world
        ≡ finish_tx pool empty ran)
    × Agrees lower repo_later (execute r.done (r.step ∷ r.rest) (restamp second r.state) 2) ran
unfolding is_err_not_found args_to_data
work-Restarts_example =
    work-Restarts lower pool pool-PoolLaws repo repo_later repo-RepositoryLaws
      repo_later-RepositoryLaws repo-IsAvailable repo_later-IsAvailable 7 args steps keeps_all
      storable storable_later IsForward IsForward-IsIdempotent steps-IsForward {a = payload}
      {e = not_found} {e₂ = not_found} {x = down} empty 0 2 (record begun { current_step = 1 })
      {tx = empty} refl refl refl refl refl refl refl refl stops
