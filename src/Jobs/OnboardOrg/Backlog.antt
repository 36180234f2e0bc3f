-- ===== src/Jobs/OnboardOrg/Backlog.antt =====
-- A backlog of new onboard_org jobs, which a worker takes one after another, in any order.
use hbs_queue.Errors.{GoError, ok, err, is_err_not_found}
use hbs_queue.Jobs.Args.{OnboardOrgArgs}
use hbs_queue.Jobs.OnboardOrg.Atomic.{work_isolated}
use hbs_queue.Jobs.OnboardOrg.Transaction.{work_completes, onboard_org_steps-KeepsContract}
use hbs_queue.Jobs.OnboardOrg.{
  Pool, PoolLaws, IsUp, FitsBigint, fits_columns, args_to_data, onboard_org_steps, work,
}
use hbs_queue.Prelude.{ℕ, ◌≡◌, ◌≢◌, refl, sym, ap, ◌∙◌, true, List, [], ◌∷◌, Bytes, All}
use hbs_queue.Workflow.Repository.{Repository, RepositoryLaws, IsAvailable}
use hbs_queue.Workflow.Runner.Done.{IsDone}
use hbs_queue.Workflow.State.{WorkflowState}

abbrev pub Job : Type 0
Job = ℕ × OnboardOrgArgs

-- No two jobs have the same number.
abbrev pub Distinct : List Job → Type 0
Distinct [] = Unit {0}
Distinct (job ∷ jobs) = All (λ k. job.0 ≢ k.0) jobs × Distinct jobs

-- The row of the job fits the columns.
abbrev pub FitsRow : Job → Type 0
FitsRow (id, args) = FitsBigint id × (fits_columns args ≡ true)

module _ {Tx : Type 0} (repo : Repository Tx) where
  abbrev pub HasNoRow : Tx → ℕ → Type 0
  HasNoRow tx id = (e : GoError) × (repo.get tx id ≡ err e) × (is_err_not_found e ≡ true)

  -- The row of the job is done, with the job's payload as its accumulator.
  abbrev pub HasWorked : Tx → Job → Type 0
  HasWorked tx (id, args) =
      (r : WorkflowState) × (repo.get tx id ≡ ok r)
      × IsDone 7 r
      × (ok r.accumulator ≡ args_to_data args)

  HasNoRow-later :
      (tx later : Tx) (id : ℕ) (jobs : List Job)
      → ((job : ℕ) → job ≢ id → repo.get later job ≡ repo.get tx job)
      → All (λ k. id ≢ k.0) jobs
      → All (λ k. HasNoRow tx k.0) jobs
      → All (λ k. HasNoRow later k.0) jobs
  HasNoRow-later tx later id [] same other new = tt
  HasNoRow-later tx later id (k ∷ jobs) same (o, other) ((e, missing, known), new) = (
    (e, same k.0 (λ p. o (sym p)) ∙ missing, known),
    HasNoRow-later tx later id jobs same other new,
  )

module _ (unicode_lower : Bytes → Bytes) {S Tx W : Type 0} (pool : Pool S Tx)
    (repo : Repository Tx) where
  -- Work on each job in turn.
  unfoldable pub work_all : List Job → S → W → S × W
  work_all [] s w = (s, w)
  work_all ((id, args) ∷ jobs) s w =
      let worked = work unicode_lower pool repo id args s w in work_all jobs worked.db worked.world

  module _ (laws : PoolLaws pool) (repo_laws : RepositoryLaws repo) (available : IsAvailable repo)
      (up : IsUp pool repo) where
    work_all_ends :
        (jobs : List Job) (s : S) (w : W) {tx later : Tx}
        → Distinct jobs
        → All FitsRow jobs
        → pool.begin s ≡ ok tx
        → All (λ k. HasNoRow repo tx k.0) jobs
        → pool.begin (work_all jobs s w).0 ≡ ok later
        → ((work_all jobs s w).1 ≡ w)
          × All (HasWorked repo later) jobs
          × ((job : ℕ) → All (λ k. job ≢ k.0) jobs → repo.get later job ≡ repo.get tx job)
    unfolding work_all work args_to_data
    work_all_ends [] s w distinct fits begun new again =
        (refl, tt, λ job other. ap (λ t. repo.get t job) (let e = sym again ∙ begun in cc))
    work_all_ends ((id, args) ∷ jobs) s w {tx} {later} (other, distinct) (fit, fits) begun
          ((e, missing, known), new) again =
        let worked = work unicode_lower pool repo id args s w in
        let (mid, at_mid) = up.begins worked.db in
        let (_, still, r, found, status, step, same) =
          work_completes unicode_lower pool laws repo id args repo_laws available s w begun refl
            missing known (up.creates tx id args _ e fit.0 fit.1 refl missing known)
            (λ t. up.commits s tx t id begun) at_mid in
        let apart : (job : ℕ) → job ≢ id → repo.get mid job ≡ repo.get tx job = λ job o.
          work_isolated unicode_lower pool laws repo onboard_org_steps id args s w repo_laws
            (onboard_org_steps-KeepsContract W) job o begun at_mid in
        let (world, all, frame) =
          work_all_ends jobs worked.db worked.world distinct fits at_mid
            (HasNoRow-later repo tx mid id jobs apart other new) again in
        (
          world ∙ still,
          ((r, frame id other ∙ found, (status, step), ap ok same), all),
          λ job (o, others). frame job others ∙ apart job o,
        )

    -- The queue drains: with PostgreSQL in reach, new jobs of distinct numbers whose rows fit the
    -- columns (a crm_id of at most 50 characters, and no NUL character in a text), worked on one
    -- after another in any order, all end completed: a later transaction finds for each its row, with all
    -- seven steps counted and with its own payload, and nothing is done to the outside world.
    pub work_all_completes :
        (jobs : List Job) (s : S) (w : W) {tx later : Tx}
        → Distinct jobs
        → All FitsRow jobs
        → pool.begin s ≡ ok tx
        → All (λ k. HasNoRow repo tx k.0) jobs
        → pool.begin (work_all jobs s w).0 ≡ ok later
        → ((work_all jobs s w).1 ≡ w) × All (HasWorked repo later) jobs
    work_all_completes jobs s w distinct fits begun new again =
        let (still, all, _) = work_all_ends jobs s w distinct fits begun new again in (still, all)
