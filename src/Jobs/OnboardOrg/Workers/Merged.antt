-- ===== src/Jobs/OnboardOrg/Workers/Merged.antt =====
-- What is committed while several workers are at work.
use native.Mathlib.Decide.{ℕ_discrete}
use hbs_queue.Errors.{ok}
use hbs_queue.Jobs.Args.{OnboardOrgArgs}
use hbs_queue.Jobs.OnboardOrg.Atomic.{outcome-cases}
use hbs_queue.Jobs.OnboardOrg.Transaction.{finish_tx_failed, finish_tx_nil}
use hbs_queue.Jobs.OnboardOrg.{Pool, finish_tx}
use hbs_queue.Prelude.{
  ℕ, ◌≡◌, sym, subst, ap, ◌∙◌, inl, inr, Option, none, some, List, Bytes, length, All, arith,
}
use hbs_queue.Workflow.Repository.{Repository, RepositoryLaws}
use hbs_queue.Workflow.Runner.Done.{IsDone, run_nil-IsDone}
use hbs_queue.Workflow.Runner.Isolated.{Wrote, run-Wrote}
use hbs_queue.Workflow.Runner.{returned}
use hbs_queue.Workflow.State.{Accumulator, WorkflowState}
use hbs_queue.Workflow.Step.{Step, KeepsContract}
use hbs_queue.Jobs.OnboardOrg.Workers.{
  AllDone, MergeLaws, Attempt, Fleet, put, attempted, Turn, begins, finishes, dies, elsewhere,
  Turns, idle, turned,
}

module _ (unicode_lower : Bytes → Bytes) {S Tx W : Type 0} (pool : Pool S Tx) (repo : Repository Tx)
    (steps : List (Step W)) where
  -- A run that returned nil has written to its own row only, and left it done.
  pub record IsOwn (n job : ℕ) (t : Attempt S Tx W) : Type 0 where
    pub begun : pool.begin t.began ≡ ok t.tx
    pub wrote : t.ran.outcome ≡ returned none → Wrote repo job t.tx t.ran.db
    pub own :
        t.ran.outcome ≡ returned none
        → (r : WorkflowState) × (repo.get t.ran.db job ≡ ok r)
          × IsDone n r
          × ((s : WorkflowState) → repo.get t.tx job ≡ ok s → r.accumulator ≡ s.accumulator)

  -- Each worker that is at work has it.
  abbrev pub Every : (ℕ → Attempt S Tx W → Type 0) → (ℕ → Option (Attempt S Tx W)) → Type 0
  Every P busy = (job : ℕ) (t : Attempt S Tx W) → busy job ≡ some t → P job t

  pub put-Every :
      (P : ℕ → Attempt S Tx W → Type 0) (job : ℕ) (v : Option (Attempt S Tx W))
      (busy : ℕ → Option (Attempt S Tx W))
      → Every P busy
      → ((t : Attempt S Tx W) → v ≡ some t → P job t)
      → Every P (put job v busy)
  put-Every P job v busy old new k t at_k = elim (ℕ_discrete k job) [
    | yes same ↦ subst (λ j. P j t) (sym same) (new t (ground arith))
    | no other ↦ old k t (ground arith)
  ]

  module _ (laws : MergeLaws pool repo) (repo_laws : RepositoryLaws repo)
      (contract : All KeepsContract steps) where
    attempted-IsOwn :
        (job : ℕ) (args : OnboardOrgArgs) (a : Accumulator) (s : S) {tx : Tx} (w : W)
        → AllDone pool repo (length steps) s
        → pool.begin s ≡ ok tx
        → IsOwn (length steps) job (attempted unicode_lower pool repo steps job args a s tx w)
    attempted-IsOwn job args a s {tx} w done begun = record {
      begun = begun;
      wrote =
          run-Wrote unicode_lower repo job repo_laws steps "onboard_org" args.client_id a tx w
            contract;
      own =
          run_nil-IsDone unicode_lower repo repo_laws steps contract job "onboard_org"
            args.client_id a tx w (λ r found. done tx job r begun found);
    }

    -- The end of an attempt puts no row into the store that is not done.
    finish_tx-AllDone :
        (job : ℕ) (t : Attempt S Tx W) (s : S)
        → AllDone pool repo (length steps) s
        → IsOwn (length steps) job t
        → AllDone pool repo (length steps) (finish_tx pool s t.ran).db
    finish_tx-AllDone job t s done is later k r again found = elim (outcome-cases t.ran.outcome) [
      | inr bad ↦
          let (stored, _, _) = finish_tx_failed pool laws.rollback_discards s t.ran bad in
          done later k r (rw stored at again) found
      | inl nil ↦
          let (stored, _, _) = finish_tx_nil pool laws.rollback_discards s t.ran nil in
          let (now, at_now, own, others) =
            laws.merges t.began s t.tx t.ran.db later job is.begun (is.wrote nil)
              (rw stored at again) in
          elim (ℕ_discrete k job) [
            | no other ↦ done now k r at_now (sym (others k other) ∙ found)
            | yes same ↦
                let here = subst (λ j. repo.get later j ≡ ok r) same found in
                elim own [
                  | inr (_, kept) ↦ done now job r at_now (sym kept ∙ here)
                  | inl written ↦
                      let (r', found', fine, _) = is.own nil in
                      let one : r' ≡ r = let e = sym found' ∙ (sym written ∙ here) in cc in
                      subst (IsDone (length steps)) one fine
                ]
          ]
    ]

    pub record IsSound (f : Fleet S Tx W) : Type 0 where
      pub rows : AllDone pool repo (length steps) f.store
      pub workers : Every (IsOwn (length steps)) f.busy

    Turn-IsSound :
        {f g : Fleet S Tx W} → IsSound f → Turn unicode_lower pool repo steps f g → IsSound g
    Turn-IsSound {f} sound (begins job args {a} {tx} free begun data₀) = record {
      rows = sound.rows;
      workers = put-Every (IsOwn (length steps)) job _ f.busy sound.workers (λ t is.
          let same : attempted unicode_lower pool repo steps job args a f.store tx f.world ≡ t =
            cc in
          subst (IsOwn (length steps) job) same
            (attempted-IsOwn job args a f.store f.world sound.rows begun));
    }
    Turn-IsSound {f} sound (finishes job {t} at_work) = record {
      rows = finish_tx-AllDone job t f.store sound.rows (sound.workers job t at_work);
      workers =
          put-Every (IsOwn (length steps)) job none f.busy sound.workers
            (λ t is. absurd (let bad = is in cc));
    }
    Turn-IsSound {f} sound (dies job at_work) = record {
      rows = sound.rows;
      workers =
          put-Every (IsOwn (length steps)) job none f.busy sound.workers
            (λ t is. absurd (let bad = is in cc));
    }
    Turn-IsSound {f} sound (elsewhere t v same) = record {
      rows = λ later k r again found.
          let (tx, begun, rows) = same later again in
          sound.rows tx k r begun (sym (rows k) ∙ found);
      workers = sound.workers;
    }

    pub Turns-IsSound :
        {s₀ : S} {w₀ : W} {f : Fleet S Tx W}
        → AllDone pool repo (length steps) s₀
        → Turns unicode_lower pool repo steps s₀ w₀ f
        → IsSound f
    Turns-IsSound done idle = record {
      rows = done;
      workers = λ job t is. absurd (let bad = is in cc);
    }
    Turns-IsSound done (turned turns turn) = Turn-IsSound (Turns-IsSound done turns) turn

    -- Workers do not get in each other's way: in every state that workers on different jobs reach
    -- from a store whose rows are done (one without rows, say), however their transactions lie over
    -- each other and whatever fails, each row that a transaction finds is completed with all steps
    -- counted.
    pub workers-IsDone :
        {s₀ : S} {w₀ : W} {f : Fleet S Tx W} (job : ℕ) (r : WorkflowState) {tx : Tx}
        → AllDone pool repo (length steps) s₀
        → Turns unicode_lower pool repo steps s₀ w₀ f
        → pool.begin f.store ≡ ok tx
        → repo.get tx job ≡ ok r
        → IsDone (length steps) r
    workers-IsDone job r {tx} done turns begun found =
        let sound = Turns-IsSound done turns in sound.rows tx job r begun found

    -- In every state that workers on different jobs reach from a store whose rows are done, a
    -- worker whose run returned nil and whose commit succeeds has completed its job: the attempt
    -- returns nil, and a later transaction finds the job's row done, whatever the other workers
    -- have committed in the meantime.
    pub finished-IsDone :
        {s₀ : S} {w₀ : W} {f : Fleet S Tx W} (job : ℕ) {t : Attempt S Tx W} {later : Tx}
        → AllDone pool repo (length steps) s₀
        → Turns unicode_lower pool repo steps s₀ w₀ f
        → f.busy job ≡ some t
        → t.ran.outcome ≡ returned none
        → (pool.commit f.store t.ran.db).1 ≡ none
        → pool.begin (finish_tx pool f.store t.ran).db ≡ ok later
        → ((finish_tx pool f.store t.ran).outcome ≡ returned none)
          × (r : WorkflowState) × (repo.get later job ≡ ok r)
          × IsDone (length steps) r
    finished-IsDone {f} job {t} {later} done turns at_work nil committed again =
        let is = (Turns-IsSound done turns).workers job t at_work in
        let (stored, _, outcome) = finish_tx_nil pool laws.rollback_discards f.store t.ran nil in
        let (now, _, own, _) =
          laws.merges t.began f.store t.tx t.ran.db later job is.begun (is.wrote nil)
            (rw stored at again) in
        let (r, found, fine, _) = is.own nil in
        (
          outcome ∙ ap returned committed,
          r,
          elim own [ inl written ↦ written ∙ found | inr (bad, _) ↦ absurd (bad committed) ],
          fine,
        )
