-- ===== src/Scenarios/Workers.antt =====
-- Two workers side by side, over a database whose transactions keep the rows that they have written.
use hbs_queue.Errors.{GoError, Result, ok, err, message, not_found, is_err_not_found}
use hbs_queue.Jobs.OnboardOrg.Transaction.{onboard_org_steps-KeepsContract}
use hbs_queue.Jobs.OnboardOrg.Workers.Kept.{workers_keep}
use hbs_queue.Jobs.OnboardOrg.Workers.Merged.{workers-IsDone, finished-IsDone}
use hbs_queue.Jobs.OnboardOrg.Workers.{
  AllDone, MergeLaws, Attempt, Fleet, put, attempted, Turns, begins, finishes, idle, turned,
}
use hbs_queue.Jobs.OnboardOrg.{Pool, args_to_data, onboard_org_steps, finish_tx}
use hbs_queue.Prelude.{
  ℕ, ◌≡◌, ◌≢◌, refl, inl, ◌∙◌, Bool, true, false, Option, none, some, List, [], Bytes, codes, arith,
  ◌==◌, if◌then◌else◌,
}
use hbs_queue.Scenarios.Attempts.{payload}
use hbs_queue.Scenarios.Jobs.{args}
use hbs_queue.Workflow.Repository.{Repository, SameProgress, RepositoryLaws}
use hbs_queue.Workflow.Runner.Done.{IsDone}
use hbs_queue.Workflow.Runner.Isolated.{Wrote, created, updated, then_wrote}
use hbs_queue.Workflow.Runner.{Ran, returned, run}
use hbs_queue.Workflow.State.{WorkflowState, completed}
use hbs_queue.Workflow.Step.{Step}

abbrev Rows : Type 0
Rows = ℕ → Option WorkflowState

-- What a transaction sees, and which rows it has written.
record Opened : Type 0 where
  seen : Rows
  written : ℕ → Bool

abbrev write : ℕ → WorkflowState → Opened → Opened
write job r tx = record {
  seen = λ k. if k == job then some r else tx.seen k;
  written = λ k. if k == job then true else tx.written k;
}

abbrev add : Opened → WorkflowState → Opened × Option GoError
add tx s = elim (tx.seen s.job_id) [
  | some r ↦ (tx, some (message (codes "duplicate key")))
  | none ↦ (write s.job_id s tx, none)
]

abbrev change : Opened → WorkflowState → Opened × Option GoError
change tx s = elim (tx.seen s.job_id) [
  | none ↦ (tx, some not_found)
  | some r ↦ (write s.job_id s tx, none)
]

abbrev look : Opened → ℕ → Result WorkflowState
look tx job = elim (tx.seen job) [ none ↦ err not_found | some r ↦ ok (record r { job_id = job }) ]

abbrev repo : Repository Opened
repo = record { create = λ tx s. ((add tx s).0, s, (add tx s).1); get = look; update_step = change }

itself : (s : WorkflowState) → SameProgress s s
itself s = record {
  same_job = refl;
  same_step = refl;
  same_status = refl;
  same_error = refl;
  same_accumulator = refl;
}

repo-RepositoryLaws : RepositoryLaws repo
repo-RepositoryLaws = record {
  get-update_step = λ d s h. record { row = s; found = ground arith; same = itself s };
  get-update_step_ne = λ d s job h other. ground arith;
  create_fills = λ d s h. refl;
  get-create = λ d s h step text. (ground arith, itself s);
  get-create_ne = λ d s job h other. ground arith;
  get-job_id = λ d job r h. ground arith;
}

abbrev opened : Rows → Opened
opened s = record { seen = s; written = λ k. false }

-- A commit puts in the rows that were written, and keeps the others.
abbrev pool : Pool Rows Opened
pool = record {
  begin = λ s. ok (opened s);
  commit = λ s tx. (λ k. if tx.written k then tx.seen k else s k, none);
  rollback = λ s tx. s;
}

Wrote-written :
    (job : ℕ) (d e : Opened)
    → Wrote repo job d e
    → (e.written job ≡ true) × ((k : ℕ) → k ≢ job → e.written k ≡ d.written k)
Wrote-written job _ _ (created d s own nil _ _) = (ground arith, λ k other. ground arith)
Wrote-written job _ _ (updated d s own nil) = (ground arith, λ k other. ground arith)
Wrote-written job d e (then_wrote {d = m} p q) =
    let (_, first) = Wrote-written job d m p in
    let (here, second) = Wrote-written job m e q in
    (here, λ k other. second k other ∙ first k other)

pool-MergeLaws : MergeLaws pool repo
pool-MergeLaws = record {
  rollback_discards = λ s tx. refl;
  merges = λ s₀ s tx₀ tx later job begun wrote again.
      let (here, others) = Wrote-written job tx₀ tx wrote in
      (opened s, refl, inl (ground arith), λ k other. let same = others k other in ground arith);
}

abbrev lower : Bytes → Bytes
lower s = s

abbrev steps : List (Step ℕ)
steps = onboard_org_steps

abbrev empty : Rows
empty = λ job. none

abbrev work_of : ℕ → Attempt Rows Opened ℕ
work_of job = attempted lower pool repo steps job args payload empty (opened empty) 0

-- Both workers have begun, and the one on job 7 has ended.
abbrev both : Fleet Rows Opened ℕ
both = record {
  store = empty;
  world = 0;
  busy = put 8 (some (work_of 8)) (put 7 (some (work_of 7)) (λ job. none));
}

abbrev one_left : Fleet Rows Opened ℕ
one_left = record {
  store = (finish_tx pool empty (work_of 7).ran).db;
  world = 0;
  busy = put 7 none both.busy;
}

turns : Turns lower pool repo steps empty 0 one_left
unfolding args_to_data run onboard_org_steps is_err_not_found
turns =
    turned
      (turned (turned idle (begins 7 args {a = payload} {tx = opened empty} refl refl refl))
        (begins 8 args {a = payload} {tx = opened empty} refl refl refl))
      (finishes 7 {t = work_of 7} refl)

empty-AllDone : AllDone pool repo 7 empty
empty-AllDone = λ tx job r begun found. absurd (let row = begun in ground arith)

abbrev row : ℕ → WorkflowState
row id = record {
  id = "";
  job_id = id;
  workflow_type = "onboard_org";
  client_id = "crm-1";
  order_id = "";
  current_step = 7;
  status = completed;
  error = [];
  accumulator = payload;
  created_at = 0;
  updated_at = 0;
}

found_first : look (opened one_left.store) 7 ≡ ok (row 7)
unfolding args_to_data run onboard_org_steps is_err_not_found finish_tx
found_first = refl

workers-IsDone_example : IsDone 7 (row 7)
unfolding onboard_org_steps
workers-IsDone_example =
    workers-IsDone lower pool repo steps pool-MergeLaws repo-RepositoryLaws
      (onboard_org_steps-KeepsContract ℕ) {s₀ = empty} {w₀ = 0} {f = one_left} 7 (row 7)
      {tx = opened one_left.store} empty-AllDone turns refl found_first

abbrev last : Ran Rows ℕ
last = finish_tx pool one_left.store (work_of 8).ran

finished-IsDone_example :
    (last.outcome ≡ returned none)
    × (r : WorkflowState) × (look (opened last.db) 8 ≡ ok r)
    × IsDone 7 r
unfolding onboard_org_steps run is_err_not_found
finished-IsDone_example =
    finished-IsDone lower pool repo steps pool-MergeLaws repo-RepositoryLaws
      (onboard_org_steps-KeepsContract ℕ) {s₀ = empty} {w₀ = 0} {f = one_left} 8 {t = work_of 8}
      {later = opened last.db} empty-AllDone turns refl refl refl refl

first_done : AllDone pool repo 7 one_left.store
unfolding onboard_org_steps
first_done = λ tx job r begun found.
    workers-IsDone lower pool repo steps pool-MergeLaws repo-RepositoryLaws
      (onboard_org_steps-KeepsContract ℕ) {f = one_left} job r empty-AllDone turns begun found

-- A worker is given the first job again.
abbrev again : Attempt Rows Opened ℕ
again = attempted lower pool repo steps 7 args payload one_left.store (opened one_left.store) 0

abbrev over : Fleet Rows Opened ℕ
over = record {
  store = (finish_tx pool one_left.store again.ran).db;
  world = 0;
  busy = put 7 none (put 7 (some again) (λ job. none));
}

again_turns : Turns lower pool repo steps one_left.store 0 over
unfolding args_to_data run onboard_org_steps is_err_not_found finish_tx
again_turns =
    turned (turned idle (begins 7 args {a = payload} {tx = opened one_left.store} refl refl refl))
      (finishes 7 {t = again} refl)

workers_keep_example :
    (r' : WorkflowState) × (look (opened over.store) 7 ≡ ok r')
    × IsDone 7 r'
    × (r'.accumulator ≡ payload)
unfolding onboard_org_steps
workers_keep_example =
    workers_keep lower pool repo steps pool-MergeLaws repo-RepositoryLaws
      (onboard_org_steps-KeepsContract ℕ) {s₀ = one_left.store} {w₀ = 0} {f = over} 7 (row 7)
      {tx = opened one_left.store} {later = opened over.store} first_done refl found_first
      again_turns refl
