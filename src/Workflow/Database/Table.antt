-- ===== src/Workflow/Database/Table.antt =====
-- A table in memory, keyed by the job: a database that does what is documented of the statements.
use hbs_queue.Errors.{Result, ok, err, message, no_rows}
use hbs_queue.Prelude.{
  ℕ, inl, inr, Option, none, some, codes, arith, ◌==◌, if◌then◌else◌, Option-cases, ◌≡◌, suc,
}
use hbs_queue.Workflow.Database.{
  Row, InsertArgs, Returning, UpdateArgs, inserted, updated, Database, DatabaseLaws, IsReachable,
}

abbrev pub Table : Type 0
Table = ℕ → Option Row

abbrev write : Table → ℕ → Row → Table
write t job row = λ j. if j == job then some row else t j

-- The key of a row is where it stands.
abbrev keyed : ℕ → Option Row → Result Row
keyed job none = err no_rows
keyed job (some r) = ok (record r { job_id = job })

abbrev issued : Returning
issued = record { id = "0"; created_at = 100; updated_at = 100 }

abbrev insert_row : Table → InsertArgs → Table × Result Returning
insert_row t a = elim (t a.job_id) [
  | some r ↦ (t, err (message (codes "duplicate key value violates unique constraint")))
  | none ↦ (write t a.job_id (inserted a issued), ok issued)
]

abbrev update_rows : Table → UpdateArgs → Table × Result ℕ
update_rows t a = elim (t a.job_id) [
  | none ↦ (t, ok 0)
  | some r ↦ (write t a.job_id (updated a 200 r), ok 1)
]

abbrev pub table_database : Database Table
table_database = record {
  insert = insert_row;
  select = λ t job. keyed job (t job);
  update = update_rows;
}

pub table_database-DatabaseLaws : DatabaseLaws table_database
table_database-DatabaseLaws = record {
  select-insert = λ t a r h. ground arith;
  select-insert_ne = λ t a r job h other. ground arith;
  select-update = λ t a n h. elim (Option-cases (t a.job_id)) [
    | inl e ↦ absurd (let bad = rw (e, update_rows) at h in ground arith)
    | inr (r, e) ↦ (record r { job_id = a.job_id }, 200, rw e, ground arith)
  ];
  select-update_ne = λ t a n job h other. ground arith;
  select-job_id = λ t job r h. ground arith;
}

pub update_found :
    (t : Table) (a : UpdateArgs) (r : Row)
    → keyed a.job_id (t a.job_id) ≡ ok r
    → (n : ℕ) × ((update_rows t a).1 ≡ ok (suc n))
update_found t a r h = (0, ground arith)

abbrev pub table_database-IsReachable : IsReachable table_database
table_database-IsReachable = record {
  TakesDocument = λ document. Unit {0};
  TakesError = λ text. Unit {0};
  select-TakesDocument = λ t job r h. tt;
  update_reaches = λ t a r h takes told. update_found t a r h;
}
