-- ===== src/Workflow/Database.antt =====
-- The statements that PgxRepository (internal/workflow/state.go) sends, as operations on what a
-- transaction sees, and the documented effect of each in `DatabaseLaws`. The driver and the server
-- are a parameter.
pub mod Table
use hbs_queue.Errors.{Result, ok}
use hbs_queue.Prelude.{ℕ, suc, String, ◌≡◌, ◌≢◌, Option, none, Bytes, some}
use hbs_queue.Workflow.State.{Status, Entries}

-- A JSONB value, as far as the program tells them apart.
pub data Document : Type 0 where
  json_null : Document
  json_object : Entries → Document
  json_other : Document

-- A row of workflow_state (internal/db/migrations/001_workflow_state.up.sql); none for NULL.
pub record Row : Type 0 where
  pub id : String
  pub job_id : ℕ
  pub workflow_type : String
  pub client_id : String
  pub order_id : Option String
  pub current_step : ℕ
  pub status : Status
  pub error : Option Bytes
  pub document : Document
  pub created_at : ℕ
  pub updated_at : ℕ

-- The parameters of the INSERT, and its RETURNING list.
pub record InsertArgs : Type 0 where
  pub job_id : ℕ
  pub workflow_type : String
  pub client_id : String
  pub order_id : Option String
  pub status : Status
  pub document : Document

pub record Returning : Type 0 where
  pub id : String
  pub created_at : ℕ
  pub updated_at : ℕ

-- The parameters of the UPDATE.
pub record UpdateArgs : Type 0 where
  pub current_step : ℕ
  pub status : Status
  pub error : Option Bytes
  pub document : Document
  pub job_id : ℕ

-- The row that the INSERT makes: the columns that it leaves out get their defaults.
abbrev pub inserted : InsertArgs → Returning → Row
inserted a r = record {
  id = r.id;
  job_id = a.job_id;
  workflow_type = a.workflow_type;
  client_id = a.client_id;
  order_id = a.order_id;
  current_step = 0;
  status = a.status;
  error = none;
  document = a.document;
  created_at = r.created_at;
  updated_at = r.updated_at;
}

-- The row after the UPDATE at time `now`.
abbrev pub updated : UpdateArgs → ℕ → Row → Row
updated a now r = record r {
  current_step = a.current_step;
  status = a.status;
  error = a.error;
  document = a.document;
  updated_at = now;
}

-- `Tx` is what an open transaction sees; the update returns the number of rows that it changed.
pub record Database (Tx : Type 0) : Type 0 where
  pub insert : Tx → InsertArgs → Tx × Result Returning
  pub select : Tx → ℕ → Result Row
  pub update : Tx → UpdateArgs → Tx × Result ℕ

pub record DatabaseLaws {Tx : Type 0} (db : Database Tx) : Type 0 where
  pub select-insert :
      (tx : Tx) (a : InsertArgs) (r : Returning)
      → (db.insert tx a).1 ≡ ok r
      → db.select (db.insert tx a).0 a.job_id ≡ ok (inserted a r)
  pub select-insert_ne :
      (tx : Tx) (a : InsertArgs) (r : Returning) (job : ℕ)
      → (db.insert tx a).1 ≡ ok r
      → job ≢ a.job_id
      → db.select (db.insert tx a).0 job ≡ db.select tx job
  pub select-update :
      (tx : Tx) (a : UpdateArgs) (n : ℕ)
      → (db.update tx a).1 ≡ ok (suc n)
      → (r : Row) × (now : ℕ) × (db.select tx a.job_id ≡ ok r)
        × (db.select (db.update tx a).0 a.job_id ≡ ok (updated a now r))
  pub select-update_ne :
      (tx : Tx) (a : UpdateArgs) (n job : ℕ)
      → (db.update tx a).1 ≡ ok n
      → job ≢ a.job_id
      → db.select (db.update tx a).0 job ≡ db.select tx job
  pub select-job_id : (tx : Tx) (job : ℕ) (r : Row) → db.select tx job ≡ ok r → r.job_id ≡ job

-- The server answers: an update of a row that is there changes it, where the columns take the
-- document and the error text, if it is not NULL. They took those of a row that is there.
pub record IsReachable {Tx : Type 0} (db : Database Tx) : Type 1 where
  pub TakesDocument : Document → Type 0
  pub TakesError : Bytes → Type 0
  pub select-TakesDocument :
      (tx : Tx) (job : ℕ) (r : Row) → db.select tx job ≡ ok r → TakesDocument r.document
  pub update_reaches :
      (tx : Tx) (a : UpdateArgs) (r : Row)
      → db.select tx a.job_id ≡ ok r
      → TakesDocument a.document
      → ((text : Bytes) → a.error ≡ some text → TakesError text)
      → (n : ℕ) × ((db.update tx a).1 ≡ ok (suc n))
