-- ===== src/Workflow/Pgx/Laws.antt =====
-- The repository over Postgres keeps the promises of its interface.
use hbs_queue.Errors.{GoError, Result, ok, err, Result-cases}
use hbs_queue.Prelude.{
  ℕ, zero, suc, String, ◌≡◌, ◌≢◌, refl, sym, ap, ◌∙◌, ◌⊎◌, inl, inr, none, some, [], ◌∷◌, Bytes,
  arith, eq_iff,
}
use hbs_queue.Workflow.Database.{Document, Row, inserted, updated, Database, DatabaseLaws}
use hbs_queue.Workflow.Pgx.{
  insert_args, update_args, marshal_data, unmarshal_data, to_nullable, to_nullable_text,
  from_nullable, from_nullable_text, read_row, state_of, create, get, update_step, pgx_repository,
}
use hbs_queue.Workflow.Repository.{SameProgress, Persisted, RepositoryLaws, restamp}
use hbs_queue.Workflow.State.{Accumulator, WorkflowState}

unmarshal-marshal_data :
    (a : Accumulator)
    → (document : Document) × (marshal_data a ≡ ok document) × (unmarshal_data document ≡ ok a)
unfolding marshal_data unmarshal_data
unmarshal-marshal_data none = (_, refl, refl)
unmarshal-marshal_data (some entries) = (_, refl, refl)

from-to_nullable : (v : String) → from_nullable (to_nullable v) ≡ v
unfolding to_nullable
from-to_nullable v = ground (arith, eq_iff v "")

from-to_nullable_text : (t : Bytes) → from_nullable_text (to_nullable_text t) ≡ t
from-to_nullable_text [] = refl
from-to_nullable_text (c ∷ t) = refl

rows-cases :
    (r : Result ℕ) → ((n : ℕ) × (r ≡ ok (suc n))) ⊎ ((r ≡ ok 0) ⊎ ((e : GoError) × (r ≡ err e)))
rows-cases (ok zero) = inr (inl refl)
rows-cases (ok (suc n)) = inl (n, refl)
rows-cases (err e) = inr (inr (e, refl))

state_of-job_id : (r : Row) (s : WorkflowState) → state_of r ≡ ok s → s.job_id ≡ r.job_id
unfolding state_of
state_of-job_id r s h = elim (Result-cases (unmarshal_data r.document)) [
  | inl (a, u) ↦ let read = rw (u, state_of) at h in ground arith
  | inr (e, u) ↦ absurd (let bad = rw (u, state_of) at h in cc)
]

module _ {Tx : Type 0} (db : Database Tx) where
  -- An update that returns nil has changed a row, by the statement for the state.
  update_step_sent :
      (tx : Tx) (s : WorkflowState) {document : Document}
      → marshal_data s.accumulator ≡ ok document
      → (update_step db tx s).1 ≡ none
      → (n : ℕ) × ((db.update tx (update_args s document)).1 ≡ ok (suc n))
        × ((update_step db tx s).0 ≡ (db.update tx (update_args s document)).0)
  unfolding update_step
  update_step_sent tx s {document} m nil =
      elim (rows-cases (db.update tx (update_args s document)).1) [
        | inl (n, e) ↦ (n, e, rw (m, update_step) (rw (e, update_step)))
        | inr (inl e) ↦ absurd (let bad = rw (e, update_step) at (rw (m, update_step) at nil) in cc)
        | inr (inr (x, e)) ↦
            absurd (let bad = rw (e, update_step) at (rw (m, update_step) at nil) in cc)
      ]

  -- A row whose document was marshalled from an accumulator is read as the state it stands for.
  get_row :
      (tx : Tx) (job : ℕ) {r : Row} {a : Accumulator}
      → db.select tx job ≡ ok r
      → unmarshal_data r.document ≡ ok a
      → get db tx job ≡ ok (read_row r a)
  unfolding get state_of
  get_row tx job found u = rw (found, get) (rw (u, state_of))

  module _ (laws : DatabaseLaws db) where
    update_step-Persisted :
        (tx : Tx) (s : WorkflowState)
        → (update_step db tx s).1 ≡ none
        → Persisted (pgx_repository db) (update_step db tx s).0 s
    unfolding pgx_repository
    update_step-Persisted tx s nil =
        let (document, m, u) = unmarshal-marshal_data s.accumulator in
        let (n, sent, there) = update_step_sent tx s m nil in
        let (r, now, before, after) = laws.select-update tx (update_args s document) n sent in
        record {
          row = read_row (updated (update_args s document) now r) s.accumulator;
          found = rw there (get_row (db.update tx (update_args s document)).0 s.job_id after u);
          same = record {
            same_job = laws.select-job_id tx s.job_id r before;
            same_step = refl;
            same_status = refl;
            same_error = from-to_nullable_text s.error;
            same_accumulator = refl;
          };
        }

    update_step_ne :
        (tx : Tx) (s : WorkflowState) (job : ℕ)
        → (update_step db tx s).1 ≡ none
        → job ≢ s.job_id
        → get db (update_step db tx s).0 job ≡ get db tx job
    unfolding get
    update_step_ne tx s job nil other =
        let (document, m, u) = unmarshal-marshal_data s.accumulator in
        let (n, sent, there) = update_step_sent tx s m nil in
        rw there
          (rw (laws.select-update_ne tx (update_args s document) (suc n) job sent other, get))

    create_found :
        (tx : Tx) (s : WorkflowState)
        → (create db tx s).2 ≡ none
        → s.current_step ≡ 0
        → s.error ≡ []
        → (get db (create db tx s).0 s.job_id ≡ ok (create db tx s).1)
          × SameProgress (create db tx s).1 s
    unfolding create
    create_found tx s nil at_start no_error =
        let (document, m, u) = unmarshal-marshal_data s.accumulator in
        elim (Result-cases (db.insert tx (insert_args s document)).1) [
          | inr (e, x) ↦ absurd (let bad = rw (x, create) at (rw (m, create) at nil) in cc)
          | inl (r, x) ↦
              let made = record s {
                id = r.id;
                created_at = r.created_at;
                updated_at = r.updated_at;
              } in
              let read : read_row (inserted (insert_args s document) r) s.accumulator ≡ made = λ i.
                record made {
                  order_id = from-to_nullable s.order_id i;
                  current_step = sym at_start i;
                  error = sym no_error i;
                } in
              rw (m, create)
                (rw (x, create)
                  (
                    get_row _ s.job_id (laws.select-insert tx (insert_args s document) r x) u
                        ∙ ap ok read,
                    record {
                      same_job = refl;
                      same_step = refl;
                      same_status = refl;
                      same_error = refl;
                      same_accumulator = refl;
                    },
                  ))
        ]

    create-restamp :
        (tx : Tx) (s : WorkflowState)
        → (create db tx s).2 ≡ none
        → (create db tx s).1 ≡ restamp (create db tx s).1 s
    unfolding create
    create-restamp tx s nil =
        let (document, m, u) = unmarshal-marshal_data s.accumulator in
        elim (Result-cases (db.insert tx (insert_args s document)).1) [
          | inr (e, x) ↦ absurd (let bad = rw (x, create) at (rw (m, create) at nil) in cc)
          | inl (r, x) ↦ rw (m, create) (rw (x, create) refl)
        ]

    create_ne :
        (tx : Tx) (s : WorkflowState) (job : ℕ)
        → (create db tx s).2 ≡ none
        → job ≢ s.job_id
        → get db (create db tx s).0 job ≡ get db tx job
    unfolding create get
    create_ne tx s job nil other =
        let (document, m, u) = unmarshal-marshal_data s.accumulator in
        elim (Result-cases (db.insert tx (insert_args s document)).1) [
          | inr (e, x) ↦ absurd (let bad = rw (x, create) at (rw (m, create) at nil) in cc)
          | inl (r, x) ↦
              rw (m, create)
                (rw (x, create)
                  (rw (laws.select-insert_ne tx (insert_args s document) r job x other, get)))
        ]

    get_own : (tx : Tx) (job : ℕ) (s : WorkflowState) → get db tx job ≡ ok s → s.job_id ≡ job
    unfolding get
    get_own tx job s h = elim (Result-cases (db.select tx job)) [
      | inr (e, x) ↦ absurd (let bad = rw (x, get) at h in ground arith)
      | inl (r, x) ↦ state_of-job_id r s (rw (x, get) at h) ∙ laws.select-job_id tx job r x
    ]

    -- Over a database whose statements do what is documented of them, the repository keeps every
    -- promise of its interface: what an update or a creation wrote is read back, NULL columns and
    -- the JSONB document included, Create fills in the id and the times of the state and nothing else,
    -- updates and creations leave other jobs alone, and a row that is read is the job's own.
    pub pgx_repository-RepositoryLaws : RepositoryLaws (pgx_repository db)
    unfolding pgx_repository
    pgx_repository-RepositoryLaws = record {
      get-update_step = λ tx s nil. unfold pgx_repository in update_step-Persisted tx s nil;
      get-update_step_ne = update_step_ne;
      create_fills = create-restamp;
      get-create = create_found;
      get-create_ne = create_ne;
      get-job_id = get_own;
    }
