-- ===== src/Jobs/OnboardOrg/Atomic.antt =====
-- The worker's transaction (internal/jobs/onboard_org.go) as a later one sees it.
use hbs_queue.Errors.{ok}
use hbs_queue.Jobs.Args.{OnboardOrgArgs}
use hbs_queue.Jobs.OnboardOrg.Transaction.{finish_tx_failed, finish_tx_nil, work_steps_begun}
use hbs_queue.Jobs.OnboardOrg.{Pool, PoolLaws, args_to_data, work_steps}
use hbs_queue.Prelude.{ℕ, ◌≡◌, ◌≢◌, refl, sym, ap, ◌∙◌, ◌⊎◌, inl, inr, none, some, List, Bytes, All}
use hbs_queue.Workflow.Repository.{Repository, RepositoryLaws}
use hbs_queue.Workflow.Runner.Isolated.{Wrote_ne, run-Wrote}
use hbs_queue.Workflow.Runner.{Outcome, returned, panicked, run}
use hbs_queue.Workflow.State.{Accumulator}
use hbs_queue.Workflow.Step.{Step, KeepsContract}

pub outcome-cases : (o : Outcome) → (o ≡ returned none) ⊎ (o ≢ returned none)
outcome-cases (returned none) = inl refl
outcome-cases (returned (some e)) = inr (λ p. cc)
outcome-cases panicked = inr (λ p. cc)

module _ (unicode_lower : Bytes → Bytes) {S Tx W : Type 0} (pool : Pool S Tx) (laws : PoolLaws pool)
    (repo : Repository Tx) (steps : List (Step W)) (job_id : ℕ) (args : OnboardOrgArgs) (s : S)
    (w : W) where
  -- Whatever happens, a commit that gives an error included, a later
  -- transaction sees what was there before the job, or a run that returned nil as a whole.
  pub work_atomic :
      {a : Accumulator} {tx later : Tx}
      → pool.begin s ≡ ok tx
      → args_to_data args ≡ ok a
      → pool.begin (work_steps unicode_lower pool repo steps job_id args s w).db ≡ ok later
      → let ran = run unicode_lower repo steps job_id "onboard_org" args.client_id a tx w in
        (later ≡ tx) ⊎ ((ran.outcome ≡ returned none) × (later ≡ ran.db))
  work_atomic {a} {tx} {later} begun data₀ again =
      let ran = run unicode_lower repo steps job_id "onboard_org" args.client_id a tx w in
      let whole = work_steps_begun unicode_lower pool laws repo job_id args steps s w begun data₀ in
      let unchanged : pool.begin s ≡ ok later → later ≡ tx = λ e. let same = sym e ∙ begun in cc in
      elim (outcome-cases ran.outcome) [
        | inr bad ↦
            let (stored, _, _) = finish_tx_failed pool laws.rollback_discards s ran bad in
            inl (unchanged (rw stored at (rw whole at again)))
        | inl nil ↦
            let (stored, _, _) = finish_tx_nil pool laws.rollback_discards s ran nil in
            elim (laws.begin-commit_atomic s ran.db later (rw stored at (rw whole at again))) [
              | inl same ↦ inr (nil, same)
              | inr before ↦ inl (unchanged before)
            ]
      ]

  -- Jobs do not disturb each other: whatever becomes of a job whose steps keep the contract, its
  -- commit included, a later transaction finds the row of any other job as it was.
  pub work_isolated :
      RepositoryLaws repo
      → All KeepsContract steps
      → {tx later : Tx} (job : ℕ) → job ≢ job_id
      → pool.begin s ≡ ok tx
      → pool.begin (work_steps unicode_lower pool repo steps job_id args s w).db ≡ ok later
      → repo.get later job ≡ repo.get tx job
  unfolding args_to_data
  work_isolated repo_laws contract {tx} {later} job other begun again =
      elim (work_atomic begun refl again) [
        | inl same ↦ ap (λ x. repo.get x job) same
        | inr (nil, same) ↦
            ap (λ x. repo.get x job) same
            ∙ Wrote_ne repo repo_laws job_id job other (
                run-Wrote unicode_lower repo job_id repo_laws steps "onboard_org" args.client_id _
                  tx w contract nil)
      ]
