-- ===== src/Jobs/OnboardOrg/Workers.antt =====
-- Several workers side by side (internal/db/river.go allows ten), each on a job of its own. A worker
-- begins its transaction and runs the steps in one turn, and ends in another, by a commit or a
-- rollback, in a store that the others have changed in the meantime. The queue gives a job to one
-- worker at a time. (A worker whose transaction cannot begin returns an error, and changes nothing.)
pub mod Merged
pub mod Kept
use hbs_queue.Errors.{ok}
use hbs_queue.Jobs.Args.{OnboardOrgArgs}
use hbs_queue.Jobs.OnboardOrg.{Pool, args_to_data, finish_tx}
use hbs_queue.Prelude.{ℕ, ◌≡◌, ◌≢◌, ◌⊎◌, Option, none, some, List, Bytes, ◌==◌, if◌then◌else◌}
use hbs_queue.Workflow.Repository.{Repository}
use hbs_queue.Workflow.Runner.Done.{IsDone}
use hbs_queue.Workflow.Runner.Isolated.{Wrote}
use hbs_queue.Workflow.Runner.{Ran, run}
use hbs_queue.Workflow.State.{Accumulator, WorkflowState}
use hbs_queue.Workflow.Step.{Step}

module _ {S Tx : Type 0} (pool : Pool S Tx) (repo : Repository Tx) where
  -- The store `t` has the same workflow rows as `s`.
  abbrev pub SameRows : S → S → Type 0
  SameRows s t =
      (later : Tx)
      → pool.begin t ≡ ok later
      → (tx : Tx) × (pool.begin s ≡ ok tx) × ((job : ℕ) → repo.get later job ≡ repo.get tx job)

  -- Each workflow row of the store is done.
  abbrev pub AllDone : ℕ → S → Type 0
  AllDone n s =
      (tx : Tx) (job : ℕ) (r : WorkflowState)
      → pool.begin s ≡ ok tx
      → repo.get tx job ≡ ok r
      → IsDone n r

-- Documented behaviour of transactions side by side: a rollback changes nothing that is committed;
-- the commit of a transaction that has written to the row of one job puts this row into what is
-- committed by then, or, where it gives an error, that or nothing.
pub record MergeLaws {S Tx : Type 0} (pool : Pool S Tx) (repo : Repository Tx) : Type 0 where
  pub rollback_discards : (s : S) (tx : Tx) → pool.rollback s tx ≡ s
  pub merges :
      (s₀ s : S) (tx₀ tx later : Tx) (job : ℕ)
      → pool.begin s₀ ≡ ok tx₀
      → Wrote repo job tx₀ tx
      → pool.begin (pool.commit s tx).0 ≡ ok later
      → (now : Tx) × (pool.begin s ≡ ok now)
        × ((repo.get later job ≡ repo.get tx job)
            ⊎ (((pool.commit s tx).1 ≢ none) × (repo.get later job ≡ repo.get now job)))
        × ((k : ℕ) → k ≢ job → repo.get later k ≡ repo.get now k)

-- The transaction of a worker, as it began and as its run left it.
pub record Attempt (S Tx W : Type 0) : Type 0 where
  pub began : S
  pub tx : Tx
  pub ran : Ran Tx W

-- What the workers share, and which of them are at work, by their jobs.
pub record Fleet (S Tx W : Type 0) : Type 0 where
  pub store : S
  pub world : W
  pub busy : ℕ → Option (Attempt S Tx W)

abbrev pub put : {A : Type 0} → ℕ → Option A → (ℕ → Option A) → ℕ → Option A
put job v busy = λ k. if k == job then v else busy k

module _ (unicode_lower : Bytes → Bytes) {S Tx W : Type 0} (pool : Pool S Tx) (repo : Repository Tx)
    (steps : List (Step W)) where
  abbrev pub attempted : ℕ → OnboardOrgArgs → Accumulator → S → Tx → W → Attempt S Tx W
  attempted job args a s tx w = record {
    began = s;
    tx = tx;
    ran = run unicode_lower repo steps job "onboard_org" args.client_id a tx w;
  }

  pub data Turn (f : Fleet S Tx W) : Fleet S Tx W → Type 0 where
    begins :
        (job : ℕ) (args : OnboardOrgArgs) {a : Accumulator} {tx : Tx}
        → f.busy job ≡ none
        → pool.begin f.store ≡ ok tx
        → args_to_data args ≡ ok a
        → Turn f (record {
          store = f.store;
          world = (attempted job args a f.store tx f.world).ran.world;
          busy = put job (some (attempted job args a f.store tx f.world)) f.busy;
        })
    finishes :
        (job : ℕ) {t : Attempt S Tx W}
        → f.busy job ≡ some t
        → Turn f (record {
          store = (finish_tx pool f.store t.ran).db;
          world = f.world;
          busy = put job none f.busy;
        })
    -- the process ends before the commit, and the server rolls the transaction back
    dies :
        (job : ℕ) {t : Attempt S Tx W}
        → f.busy job ≡ some t
        → Turn f (record f { busy = put job none f.busy })
    elsewhere :
        (t : S) (v : W) → SameRows pool repo f.store t → Turn f (record f { store = t; world = v })

  -- What workers that start idle come to.
  pub data Turns (s₀ : S) (w₀ : W) : Fleet S Tx W → Type 0 where
    idle : Turns s₀ w₀ (record { store = s₀; world = w₀; busy = λ job. none })
    turned : {f g : Fleet S Tx W} → Turns s₀ w₀ f → Turn f g → Turns s₀ w₀ g
