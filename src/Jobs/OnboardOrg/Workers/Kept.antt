-- ===== src/Jobs/OnboardOrg/Workers/Kept.antt =====
-- A completed workflow while several workers are at work.
use native.Mathlib.Decide.{ℕ_discrete}
use hbs_queue.Errors.{ok}
use hbs_queue.Jobs.OnboardOrg.Atomic.{outcome-cases}
use hbs_queue.Jobs.OnboardOrg.Transaction.{finish_tx_failed, finish_tx_nil}
use hbs_queue.Jobs.OnboardOrg.Workers.Merged.{IsOwn, Every, put-Every, IsSound, Turns-IsSound}
use hbs_queue.Jobs.OnboardOrg.Workers.{
  AllDone, MergeLaws, Attempt, Fleet, attempted, Turn, begins, finishes, dies, elsewhere, Turns,
  idle, turned,
}
use hbs_queue.Jobs.OnboardOrg.{Pool, finish_tx}
use hbs_queue.Prelude.{
  ℕ, ◌≡◌, refl, sym, subst, ap, ◌∙◌, inl, inr, none, some, List, Bytes, length, All,
}
use hbs_queue.Workflow.Repository.{Repository, RepositoryLaws}
use hbs_queue.Workflow.Runner.Done.{IsDone}
use hbs_queue.Workflow.State.{Accumulator, WorkflowState}
use hbs_queue.Workflow.Step.{Step, KeepsContract}

module _ (unicode_lower : Bytes → Bytes) {S Tx W : Type 0} (pool : Pool S Tx) (repo : Repository Tx)
    (steps : List (Step W)) (laws : MergeLaws pool repo) (repo_laws : RepositoryLaws repo)
    (contract : All KeepsContract steps) (job : ℕ) (a : Accumulator) where
  abbrev Holds : Tx → Type 0
  Holds tx = (r : WorkflowState) × (repo.get tx job ≡ ok r) × (r.accumulator ≡ a)

  -- The store has the row, and a worker on the job has seen it.
  record IsKept (f : Fleet S Tx W) : Type 0 where
    stored : (tx : Tx) → pool.begin f.store ≡ ok tx → Holds tx
    working : Every unicode_lower pool repo steps (λ k t. k ≡ job → Holds t.tx) f.busy

  finish_tx-Holds :
      (k : ℕ) (t : Attempt S Tx W) (f : Fleet S Tx W)
      → IsOwn unicode_lower pool repo steps (length steps) k t
      → IsKept f
      → f.busy k ≡ some t
      → (later : Tx) → pool.begin (finish_tx pool f.store t.ran).db ≡ ok later
      → Holds later
  finish_tx-Holds k t f is kept at_work later again = elim (outcome-cases t.ran.outcome) [
    | inr bad ↦
        let (stored, _, _) = finish_tx_failed pool laws.rollback_discards f.store t.ran bad in
        kept.stored later (rw stored at again)
    | inl nil ↦
        let (stored, _, _) = finish_tx_nil pool laws.rollback_discards f.store t.ran nil in
        let (now, at_now, own, others) =
          laws.merges t.began f.store t.tx t.ran.db later k is.begun (is.wrote nil)
            (rw stored at again) in
        let (r, found, acc) = kept.stored now at_now in
        elim (ℕ_discrete job k) [
          | no other ↦ (r, others job other ∙ found, acc)
          | yes same ↦ elim own [
            | inr (_, before) ↦
                let here = subst (λ j. repo.get now j ≡ ok r) same found in
                (r, rw same (before ∙ here), acc)
            | inl written ↦
                let (r₀, found₀, acc₀) = kept.working k t at_work (sym same) in
                let (r₁, found₁, _, still) = is.own nil in
                let seen = subst (λ j. repo.get t.tx j ≡ ok r₀) same found₀ in
                (r₁, rw same (written ∙ found₁), still r₀ seen ∙ acc₀)
          ]
        ]
  ]

  Turn-IsKept :
      {f g : Fleet S Tx W}
      → IsSound unicode_lower pool repo steps laws repo_laws contract f
      → IsKept f
      → Turn unicode_lower pool repo steps f g
      → IsKept g
  Turn-IsKept {f} sound kept (begins k args {a = b} {tx} free begun data₀) = record {
    stored = kept.stored;
    working =
        put-Every unicode_lower pool repo steps (λ k t. k ≡ job → Holds t.tx) k _ f.busy
          kept.working
          (λ t is own.
            let same : attempted unicode_lower pool repo steps k args b f.store tx f.world ≡ t =
              cc in
            subst (λ x. Holds x.tx) same (kept.stored tx begun));
  }
  Turn-IsKept {f} sound kept (finishes k {t} at_work) = record {
    stored = finish_tx-Holds k t f (sound.workers k t at_work) kept at_work;
    working =
        put-Every unicode_lower pool repo steps (λ k t. k ≡ job → Holds t.tx) k none f.busy
          kept.working (λ t is. absurd (let bad = is in cc));
  }
  Turn-IsKept {f} sound kept (dies k at_work) = record {
    stored = kept.stored;
    working =
        put-Every unicode_lower pool repo steps (λ k t. k ≡ job → Holds t.tx) k none f.busy
          kept.working (λ t is. absurd (let bad = is in cc));
  }
  Turn-IsKept {f} sound kept (elsewhere t v same) = record {
    stored = λ later again.
        let (tx, begun, rows) = same later again in
        let (r, found, acc) = kept.stored tx begun in (r, rows job ∙ found, acc);
    working = kept.working;
  }

  Turns-IsKept :
      {s₀ : S} {w₀ : W} {f : Fleet S Tx W}
      → AllDone pool repo (length steps) s₀
      → ((tx : Tx) → pool.begin s₀ ≡ ok tx → Holds tx)
      → Turns unicode_lower pool repo steps s₀ w₀ f
      → IsKept f
  Turns-IsKept done here idle = record {
    stored = here;
    working = λ k t is. absurd (let bad = is in cc);
  }
  Turns-IsKept done here (turned turns turn) =
      Turn-IsKept (Turns-IsSound unicode_lower pool repo steps laws repo_laws contract done turns)
        (Turns-IsKept done here turns) turn

module _ (unicode_lower : Bytes → Bytes) {S Tx W : Type 0} (pool : Pool S Tx) (repo : Repository Tx)
    (steps : List (Step W)) (laws : MergeLaws pool repo) (repo_laws : RepositoryLaws repo)
    (contract : All KeepsContract steps) where
  -- A completed workflow stays, also while workers are at work side by side, and on its own job
  -- again: in every state that they reach, a transaction finds the row of a job that was done when
  -- they started still done, with the accumulator that it had.
  pub workers_keep :
      {s₀ : S} {w₀ : W} {f : Fleet S Tx W} (job : ℕ) (r : WorkflowState) {tx later : Tx}
      → AllDone pool repo (length steps) s₀
      → pool.begin s₀ ≡ ok tx
      → repo.get tx job ≡ ok r
      → Turns unicode_lower pool repo steps s₀ w₀ f
      → pool.begin f.store ≡ ok later
      → (r' : WorkflowState) × (repo.get later job ≡ ok r')
        × IsDone (length steps) r'
        × (r'.accumulator ≡ r.accumulator)
  workers_keep job r {tx} {later} done begun found turns again =
      let kept =
        Turns-IsKept unicode_lower pool repo steps laws repo_laws contract job r.accumulator done
          (λ tx' begun'.
            let one : tx ≡ tx' = let e = sym begun ∙ begun' in cc in
            (r, ap (λ x. repo.get x job) (sym one) ∙ found, refl))
          turns in
      let sound = Turns-IsSound unicode_lower pool repo steps laws repo_laws contract done turns in
      let (r', found', acc) = kept.stored later again in
      (r', found', sound.rows later job r' again found', acc)
