-- ===== src/Workflow/Pgx/Available.antt =====
-- The repository over a server that can be reached.
use hbs_queue.Errors.{ok, Result-cases}
use hbs_queue.Prelude.{
  ℕ, ◌≡◌, refl, ap, ◌∙◌, inl, inr, none, some, Bytes, arith, none-ne-some, subst,
}
use hbs_queue.Workflow.Database.{
  Document, json_null, json_object, json_other, Row, Database, IsReachable,
}
use hbs_queue.Workflow.Pgx.{
  update_args, marshal_data, unmarshal_data, to_nullable_text, read_row, state_of, get, update_step,
  pgx_repository,
}
use hbs_queue.Workflow.Repository.{IsAvailable}
use hbs_queue.Workflow.State.{Accumulator, WorkflowState}

marshal_data_succeeds : (a : Accumulator) → (document : Document) × (marshal_data a ≡ ok document)
unfolding marshal_data
marshal_data_succeeds none = (_, refl)
marshal_data_succeeds (some entries) = (_, refl)

state_of-accumulator :
    (r : Row) (s : WorkflowState) → state_of r ≡ ok s → unmarshal_data r.document ≡ ok s.accumulator
unfolding state_of
state_of-accumulator r s h = elim (Result-cases (unmarshal_data r.document)) [
  | inl (a, u) ↦
      let read : read_row r a ≡ s = let e = rw (u, state_of) at h in cc in
      u ∙ ap (λ t. ok t.accumulator) read
  | inr (e, u) ↦ absurd (let bad = rw (u, state_of) at h in cc)
]

module _ {Tx : Type 0} (db : Database Tx) where
  module _ (reachable : IsReachable db) where
    -- What the columns take of an accumulator and of an error text.
    abbrev pub TakesData : Accumulator → Type 0
    TakesData none = reachable.TakesDocument json_null
    TakesData (some entries) = reachable.TakesDocument (json_object entries)

    abbrev pub TakesText : Bytes → Type 0
    TakesText t = (text : Bytes) → to_nullable_text t ≡ some text → reachable.TakesError text

    unmarshal_data-TakesData :
        (document : Document) (a : Accumulator)
        → unmarshal_data document ≡ ok a
        → reachable.TakesDocument document
        → TakesData a
    unfolding unmarshal_data
    unmarshal_data-TakesData json_null a u takes =
        let same : none ≡ a = let e = u in cc in subst TakesData same takes
    unmarshal_data-TakesData (json_object entries) a u takes =
        let same : some entries ≡ a = let e = u in cc in subst TakesData same takes
    unmarshal_data-TakesData json_other a u takes = absurd (let bad = u in cc)

    marshal_data-TakesDocument :
        (a : Accumulator) (document : Document)
        → marshal_data a ≡ ok document
        → TakesData a
        → reachable.TakesDocument document
    unfolding marshal_data
    marshal_data-TakesDocument none document m takes =
        let same : json_null ≡ document = let e = m in cc in
        subst reachable.TakesDocument same takes
    marshal_data-TakesDocument (some entries) document m takes =
        let same : json_object entries ≡ document = let e = m in cc in
        subst reachable.TakesDocument same takes

    pub get-TakesData :
        (tx : Tx) (job : ℕ) (s : WorkflowState)
        → (pgx_repository db).get tx job ≡ ok s
        → TakesData s.accumulator
    unfolding pgx_repository get
    get-TakesData tx job s found = elim (Result-cases (db.select tx job)) [
      | inr (e, x) ↦ absurd (let bad = rw (x, get) at found in ground arith)
      | inl (r, x) ↦
          unmarshal_data-TakesData r.document s.accumulator
            (state_of-accumulator r s (rw (x, get) at found))
            (reachable.select-TakesDocument tx job r x)
    ]

    pub update_of_row :
        (tx : Tx) (s r : WorkflowState)
        → (pgx_repository db).get tx s.job_id ≡ ok r
        → TakesData s.accumulator
        → TakesText s.error
        → ((pgx_repository db).update_step tx s).1 ≡ none
    unfolding pgx_repository get update_step
    update_of_row tx s r found fits text = elim (Result-cases (db.select tx s.job_id)) [
      | inr (e, x) ↦ absurd (let bad = rw (x, get) at found in ground arith)
      | inl (row, x) ↦
          let (document, m) = marshal_data_succeeds s.accumulator in
          let takes = marshal_data-TakesDocument s.accumulator document m fits in
          let (n, changed) =
            reachable.update_reaches tx (update_args s document) row x takes text in
          rw (m, update_step) (rw (changed, update_step))
    ]

  -- Over a server that answers every update of a row that is there and whose columns take what is
  -- sent, no such update of the state of a job whose row is there is refused.
  abbrev pub pgx_repository-IsAvailable : IsReachable db → IsAvailable (pgx_repository db)
  pgx_repository-IsAvailable reachable = record {
    TakesData = TakesData reachable;
    TakesText = TakesText reachable;
    takes_no_text = λ text e. absurd (none-ne-some refl e);
    get-TakesData = get-TakesData reachable;
    update_succeeds = update_of_row reachable;
  }
