-- ===== src/Jobs/OnboardOrg/Restart.antt =====
-- The attempt after a failed one. The worker has rolled back what the runner had recorded, so the
-- runner begins at the first step again, in a world that the first attempt has changed.
use native.Mathlib.Nat.{zero-add}
use hbs_queue.Errors.{GoError, ok, err, is_err_not_found}
use hbs_queue.Errors.Text.{error_text}
use hbs_queue.Jobs.Args.{OnboardOrgArgs}
use hbs_queue.Jobs.OnboardOrg.Transaction.{work_steps_begun, work_failure_discards}
use hbs_queue.Jobs.OnboardOrg.{Pool, PoolLaws, args_to_data, finish_tx, work_steps}
use hbs_queue.Prelude.{
  ℕ, ◌≡◌, ◌≢◌, subst, sym, ap, ◌∙◌, true, inl, inr, none, List, ◌∷◌, Bytes, All, Option-cases,
}
use hbs_queue.Workflow.Repository.{Repository, RepositoryLaws, IsAvailable, KeepsStorable, restamp}
use hbs_queue.Workflow.Runner.Execute.{stopped, execute}
use hbs_queue.Workflow.Runner.Refines.{Agrees}
use hbs_queue.Workflow.Runner.Restart.{IsIdempotent, Restarts, execute-Restarts}
use hbs_queue.Workflow.Runner.Resume.{run_creates}
use hbs_queue.Workflow.Runner.{Ran, returned, new_state, marked_running, run}
use hbs_queue.Workflow.State.{Accumulator, WorkflowState}
use hbs_queue.Workflow.Step.{Step, KeepsContract}

module _ (unicode_lower : Bytes → Bytes) {D W : Type 0} (repo : Repository D) where
  Agrees-stopped :
      (e : GoError) (w : W) (s : WorkflowState) (ran : Ran D W)
      → Agrees unicode_lower repo (stopped e w s) ran
      → (ran.outcome ≢ returned none) × (ran.world ≡ w)
  Agrees-stopped e w s ran agrees = elim (Option-cases (error_text unicode_lower e)) [
    | inl quiet ↦ let (outcome, world) = rw quiet at agrees in (λ nil. cc, world)
    | inr (text, told) ↦ let (outcome, world, _) = rw told at agrees in (λ nil. cc, world)
  ]

-- A new row of the same workflow differs by its id and its times only.
restamp-create :
    {D : Type 0} (repo repo₂ : Repository D) (laws : RepositoryLaws repo)
    (laws₂ : RepositoryLaws repo₂) (d : D) (s : WorkflowState)
    → (repo.create d s).2 ≡ none
    → (repo₂.create d s).2 ≡ none
    → marked_running (repo₂.create d s).1
      ≡ restamp (repo₂.create d s).1 (marked_running (repo.create d s).1)
restamp-create repo repo₂ laws laws₂ d s made made₂ =
    let stamp = (repo₂.create d s).1 in
    ap marked_running (laws₂.create_fills d s made₂)
    ∙ ap (λ t. restamp stamp (marked_running t)) (sym (laws.create_fills d s made))

-- `repo` is the repository of the first attempt and `repo₂` that of the second, whose rows get other
-- ids and times.
module _ (unicode_lower : Bytes → Bytes) {S Tx W : Type 0} (pool : Pool S Tx) (laws : PoolLaws pool)
    (repo repo₂ : Repository Tx) (repo_laws : RepositoryLaws repo)
    (repo_laws₂ : RepositoryLaws repo₂) (available : IsAvailable repo)
    (available₂ : IsAvailable repo₂) (job_id : ℕ) (args : OnboardOrgArgs) (steps : List (Step W))
    (contract : All KeepsContract steps)
    (storable : All (KeepsStorable unicode_lower available) steps)
    (storable₂ : All (KeepsStorable unicode_lower available₂) steps) (Known : Step W → Type 0)
    (idempotent : IsIdempotent Known) (known_steps : All Known steps) where
  -- The second attempt at a new job whose first one stopped at a step, with a reachable database,
  -- rows that can be created at both attempts and steps that keep their contract, whose outputs
  -- and error texts the columns take, and that are idempotent, whatever the id and the
  -- times of the state: although all that the first attempt recorded was rolled back, the second,
  -- whose row gets an id and times of its own, does what the execution from the failed step on does,
  -- with the state that the step had then, but for the id and the times, and in the world that the
  -- first attempt left. The steps before it are run again, and do nothing.
  pub work-Restarts :
      {a : Accumulator} {e e₂ x : GoError} (s : S) (w w' : W) (s' : WorkflowState) {tx : Tx}
      → pool.begin s ≡ ok tx
      → args_to_data args ≡ ok a
      → repo.get tx job_id ≡ err e
      → is_err_not_found e ≡ true
      → repo₂.get tx job_id ≡ err e₂
      → is_err_not_found e₂ ≡ true
      → let fresh = new_state job_id "onboard_org" args.client_id a in
        let created = repo.create tx fresh in
        let created₂ = repo₂.create tx fresh in
        created.2 ≡ none
        → created₂.2 ≡ none
        → execute 0 steps (marked_running created.1) w ≡ stopped x w' s'
        → let first = work_steps unicode_lower pool repo steps job_id args s w in
          (r : Restarts 0 steps (marked_running created.1) created₂.1 x w' s') × (ran : Ran Tx W)
          × (work_steps unicode_lower pool repo₂ steps job_id args first.db first.world
              ≡ finish_tx pool s ran)
          × Agrees unicode_lower repo₂
              (execute r.done (r.step ∷ r.rest) (restamp created₂.1 r.state) w')
              ran
  work-Restarts {a} {x = x} s w w' s' {tx} begun data₀ missing known missing₂ known₂ made made₂
        stop =
      let fresh = new_state job_id "onboard_org" args.client_id a in
      let created = (repo.create tx fresh).1 in
      let created₂ = (repo₂.create tx fresh).1 in
      let go = run unicode_lower repo steps job_id "onboard_org" args.client_id a tx w in
      let go₂ = run unicode_lower repo₂ steps job_id "onboard_org" args.client_id a tx w' in
      let runs =
        (run_creates unicode_lower repo repo_laws available steps contract storable job_id
          "onboard_org" args.client_id a tx w missing known made).1 in
      let runs₂ =
        (run_creates unicode_lower repo₂ repo_laws₂ available₂ steps contract storable₂ job_id
          "onboard_org" args.client_id a tx w' missing₂ known₂ made₂).1 in
      let (failed, left) = Agrees-stopped unicode_lower repo x w' s' go (rw stop at runs) in
      let (same, world, _) =
        work_failure_discards unicode_lower pool laws repo job_id args steps s w begun data₀
          failed in
      let r =
        execute-Restarts Known idempotent 0 steps (marked_running created) created₂ w known_steps
          stop in
      (
        r,
        go₂,
        rw (same, world, left)
            (work_steps_begun unicode_lower pool laws repo₂ job_id args steps s w' begun data₀),
        subst (λ p. Agrees unicode_lower repo₂ p go₂)
            (ap (λ t. execute 0 steps t w')
                (restamp-create repo repo₂ repo_laws repo_laws₂ tx fresh made made₂)
              ∙ r.again
              ∙ ap (λ j. execute j (r.step ∷ r.rest) (restamp created₂ r.state) w')
                  (zero-add r.done))
            runs₂,
      )
