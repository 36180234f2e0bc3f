-- ===== src/Jobs/OnboardOrg/Transaction.antt =====
-- The worker's transaction: what is committed, and what is not.
use hbs_queue.Errors.{GoError, ok, err, is_err_not_found}
use hbs_queue.Jobs.Args.{OnboardOrgArgs}
use hbs_queue.Jobs.OnboardOrg.{
  Pool, PoolLaws, args_to_data, stub, onboard_org_steps, finish_tx, work_steps, work,
}
use hbs_queue.Prelude.{
  ℕ, String, ◌≡◌, ◌≢◌, refl, ap, subst, ◌∙◌, true, none, List, Bytes, All, arith, none-ne-some,
}
use hbs_queue.Workflow.Repository.{Repository, RepositoryLaws, IsAvailable, KeepsStorable}
use hbs_queue.Workflow.Runner.Execute.{execute, finished}
use hbs_queue.Workflow.Runner.Isolated.{Wrote, run-Wrote}
use hbs_queue.Workflow.Runner.Resume.{run_creates}
use hbs_queue.Workflow.Runner.{returned, Ran, run, new_state, marked_running}
use hbs_queue.Workflow.State.{Accumulator, WorkflowState, completed}
use hbs_queue.Workflow.Step.{Step, KeepsContract}

module _ {S Tx W : Type 0} (pool : Pool S Tx)
    (discards : (s : S) (tx : Tx) → pool.rollback s tx ≡ s) where
  -- A run that did not return nil is rolled back.
  pub finish_tx_failed :
      (s : S) (ran : Ran Tx W)
      → ran.outcome ≢ returned none
      → ((finish_tx pool s ran).db ≡ s)
        × ((finish_tx pool s ran).world ≡ ran.world)
        × ((finish_tx pool s ran).outcome ≡ ran.outcome)
  unfolding finish_tx
  finish_tx_failed s ran bad = ground (arith, discards s ran.db)

  -- A run that returned nil is committed, and its result is the commit's.
  pub finish_tx_nil :
      (s : S) (ran : Ran Tx W)
      → ran.outcome ≡ returned none
      → ((finish_tx pool s ran).db ≡ (pool.commit s ran.db).0)
        × ((finish_tx pool s ran).world ≡ ran.world)
        × ((finish_tx pool s ran).outcome ≡ returned (pool.commit s ran.db).1)
  unfolding finish_tx
  finish_tx_nil s ran good = ground (arith, discards (pool.commit s ran.db).0 ran.db)

module _ (W : Type 0) where
  stub-KeepsContract : (name : String) → KeepsContract (stub {W = W} name)
  unfolding stub
  stub-KeepsContract name = record {
    keeps_job_id = λ w s. refl;
    keeps_current_step = λ w s. refl;
    keeps_status = λ w s. refl;
    keeps_error = λ w s. refl;
  }

  pub onboard_org_steps-KeepsContract : All KeepsContract (onboard_org_steps {W = W})
  unfolding onboard_org_steps
  onboard_org_steps-KeepsContract = (
    stub-KeepsContract _,
    (
      stub-KeepsContract _,
      (
        stub-KeepsContract _,
        (
          stub-KeepsContract _,
          (stub-KeepsContract _, (stub-KeepsContract _, (stub-KeepsContract _, tt))),
        ),
      ),
    ),
  )

  -- They store nothing and do not fail, so the columns take what they leave.
  onboard_org_steps-KeepsStorable :
      (unicode_lower : Bytes → Bytes) {D : Type 0} {repo : Repository D}
      (available : IsAvailable repo)
      → All (KeepsStorable unicode_lower available) (onboard_org_steps {W = W})
  unfolding onboard_org_steps
  onboard_org_steps-KeepsStorable unicode_lower available =
      let one : (name : String) → KeepsStorable unicode_lower available (stub {W = W} name) =
        λ name. record {
          keeps_data = λ w s fits. fits;
          fails_text = λ w s e text fails told. absurd (none-ne-some refl fails);
        } in
      (one _, (one _, (one _, (one _, (one _, (one _, (one _, tt)))))))

  -- The seven steps succeed and leave everything but the counter alone.
  execute_onboard_org :
      (s : WorkflowState) (w : W)
      → execute 0 onboard_org_steps s w ≡ finished w (record s { current_step = 7 })
  unfolding execute onboard_org_steps
  execute_onboard_org s w = refl

module _ (unicode_lower : Bytes → Bytes) {S Tx W : Type 0} (pool : Pool S Tx) (laws : PoolLaws pool)
    (repo : Repository Tx) (job_id : ℕ) (args : OnboardOrgArgs) where
  pub work_steps_begun :
      (steps : List (Step W)) {a : Accumulator} (s : S) (w : W) {tx : Tx}
      → pool.begin s ≡ ok tx
      → args_to_data args ≡ ok a
      → work_steps unicode_lower pool repo steps job_id args s w
        ≡ finish_tx pool s (run unicode_lower repo steps job_id "onboard_org" args.client_id a tx w)
  unfolding work_steps
  work_steps_begun steps s w begun data₀ = rw (begun, work_steps) (rw (data₀, work_steps))

  -- A job whose run fails leaves no trace in the database: where the runner does not return nil,
  -- the worker's deferred rollback takes back the failed status, the error text and every step that
  -- the run had recorded, so the committed store is what it was before the job, although the steps
  -- have acted on the world. The outcome is the runner's.
  pub work_failure_discards :
      (steps : List (Step W)) {a : Accumulator} (s : S) (w : W) {tx : Tx}
      → pool.begin s ≡ ok tx
      → args_to_data args ≡ ok a
      → let ran = run unicode_lower repo steps job_id "onboard_org" args.client_id a tx w in
        let worked = work_steps unicode_lower pool repo steps job_id args s w in
        ran.outcome ≢ returned none
        → (worked.db ≡ s) × (worked.world ≡ ran.world) × (worked.outcome ≡ ran.outcome)
  work_failure_discards steps {a} s w {tx} begun data₀ bad =
      rw (work_steps_begun steps s w begun data₀) (
        finish_tx_failed pool laws.rollback_discards s
          (run unicode_lower repo steps job_id "onboard_org" args.client_id a tx w) bad)

  -- Work on a new onboard_org job: with a reachable database, a lawful repository, a row that can be
  -- created, and a commit that succeeds where every write in the transaction did, the job returns
  -- nil, does nothing to the world, and whoever begins a transaction afterwards finds the row of the job completed, with all seven steps counted and with the
  -- payload as its accumulator.
  pub work_completes :
      RepositoryLaws repo
      → IsAvailable repo
      → {a : Accumulator} {e : GoError} (s : S) (w : W) {tx later : Tx} → pool.begin s ≡ ok tx
      → args_to_data args ≡ ok a
      → repo.get tx job_id ≡ err e
      → is_err_not_found e ≡ true
      → (repo.create tx (new_state job_id "onboard_org" args.client_id a)).2 ≡ none
      → ((tx' : Tx) → Wrote repo job_id tx tx' → (pool.commit s tx').1 ≡ none)
      → let worked = work unicode_lower pool repo job_id args s w in
        pool.begin worked.db ≡ ok later
        → (worked.outcome ≡ returned none)
          × (worked.world ≡ w)
          × (r : WorkflowState) × (repo.get later job_id ≡ ok r)
          × (r.status ≡ completed)
          × (r.current_step ≡ 7)
          × (r.accumulator ≡ a)
  unfolding work
  work_completes repo_laws available {a} s w {tx} {later} begun data₀ missing known made commits
        again =
      let fresh = (repo.create tx (new_state job_id "onboard_org" args.client_id a)).1 in
      let (same, done) =
        run_creates unicode_lower repo repo_laws available onboard_org_steps
          (onboard_org_steps-KeepsContract W)
          (onboard_org_steps-KeepsStorable W unicode_lower available) job_id "onboard_org"
          args.client_id a tx w missing known made in
      let ran =
        run unicode_lower repo (onboard_org_steps {W = W}) job_id "onboard_org" args.client_id a tx
          w in
      let (nil, still, there) = rw (execute_onboard_org W (marked_running fresh) w) at done in
      let committed = commits ran.db (
        run-Wrote unicode_lower repo job_id repo_laws (onboard_org_steps {W = W}) "onboard_org"
          args.client_id a tx w (onboard_org_steps-KeepsContract W) nil) in
      let (stored, world, outcome) = finish_tx_nil pool laws.rollback_discards s ran nil in
      let whole = work_steps_begun (onboard_org_steps {W = W}) s w begun data₀ in
      let seen : later ≡ ran.db =
        laws.begin-commit s ran.db later committed (rw stored at (rw whole at again)) in
      let found : repo.get ran.db job_id ≡ ok there.row =
        subst (λ j. repo.get ran.db j ≡ ok there.row) same.same_job there.found in
      rw whole (
        outcome ∙ ap returned committed,
        world ∙ still,
        there.row,
        rw seen found,
        there.same.same_status,
        there.same.same_step,
        there.same.same_accumulator ∙ same.same_accumulator,
      )
