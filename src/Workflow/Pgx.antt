-- ===== src/Workflow/Pgx.antt =====
-- internal/workflow/state.go, PgxRepository, over the statements of Workflow/Database.
pub mod Laws
pub mod Available
use hbs_queue.Errors.{GoError, Result, ok, err, message, not_found, wrap, is_err_no_rows}
use hbs_queue.Prelude.{
  ℕ, zero, suc, String, Option, none, some, [], ◌++◌, Bytes, codes, decimal, if◌then◌else◌,
  is_empty, str_eq,
}
use hbs_queue.Workflow.Database.{
  Document, json_null, json_object, json_other, Row, InsertArgs, UpdateArgs, Database,
}
use hbs_queue.Workflow.Repository.{Repository}
use hbs_queue.Workflow.State.{Accumulator, WorkflowState}

-- json.Marshal of a map of raw messages
marshal_data : Accumulator → Result Document
marshal_data none = ok json_null
marshal_data (some entries) = ok (json_object entries)

-- json.Unmarshal into a nil map
unmarshal_data : Document → Result Accumulator
unmarshal_data json_null = ok none
unmarshal_data (json_object entries) = ok (some entries)
unmarshal_data json_other =
    err (message (codes "json: cannot unmarshal value into Go value of type map"))

-- A string column that may be NULL, to and from a Go string that is empty then.
to_nullable : String → Option String
to_nullable v = if str_eq v "" then none else some v

abbrev from_nullable : Option String → String
from_nullable none = ""
from_nullable (some v) = v

-- The same for the error text.
abbrev to_nullable_text : Bytes → Option Bytes
to_nullable_text t = if is_empty t then none else some t

abbrev from_nullable_text : Option Bytes → Bytes
from_nullable_text none = []
from_nullable_text (some t) = t

-- The state that Get fills in from the scanned columns.
abbrev read_row : Row → Accumulator → WorkflowState
read_row r accumulator = record {
  id = r.id;
  job_id = r.job_id;
  workflow_type = r.workflow_type;
  client_id = r.client_id;
  order_id = from_nullable r.order_id;
  current_step = r.current_step;
  status = r.status;
  error = from_nullable_text r.error;
  accumulator = accumulator;
  created_at = r.created_at;
  updated_at = r.updated_at;
}

state_of : Row → Result WorkflowState
unfolding unmarshal_data
state_of r = elim (unmarshal_data r.document) [
  | err e ↦ err (wrap (codes "unmarshal data: ") e)
  | ok accumulator ↦ ok (read_row r accumulator)
]

-- What Create and UpdateStep send for a state.
abbrev insert_args : WorkflowState → Document → InsertArgs
insert_args s document = record {
  job_id = s.job_id;
  workflow_type = s.workflow_type;
  client_id = s.client_id;
  order_id = to_nullable s.order_id;
  status = s.status;
  document = document;
}

abbrev update_args : WorkflowState → Document → UpdateArgs
update_args s document = record {
  current_step = s.current_step;
  status = s.status;
  error = to_nullable_text s.error;
  document = document;
  job_id = s.job_id;
}

module _ {Tx : Type 0} (db : Database Tx) where
  -- (*PgxRepository).Create
  create : Tx → WorkflowState → Tx × WorkflowState × Option GoError
  unfolding marshal_data to_nullable
  create tx s = elim (marshal_data s.accumulator) [
    | err e ↦ (tx, s, some (wrap (codes "marshal data: ") e))
    | ok document ↦
        let (tx', result) = db.insert tx (insert_args s document) in
        elim result [
          | err e ↦ (tx', s, some e)
          | ok r ↦ (
            tx',
            record s { id = r.id; created_at = r.created_at; updated_at = r.updated_at },
            none,
          )
        ]
  ]

  -- (*PgxRepository).Get
  get : Tx → ℕ → Result WorkflowState
  unfolding state_of is_err_no_rows
  get tx job_id = elim (db.select tx job_id) [
    | err e ↦
        if is_err_no_rows e then err not_found else err (wrap (codes "query workflow state: ") e)
    | ok r ↦ state_of r
  ]

  -- (*PgxRepository).UpdateStep
  update_step : Tx → WorkflowState → Tx × Option GoError
  unfolding marshal_data decimal
  update_step tx s = elim (marshal_data s.accumulator) [
    | err e ↦ (tx, some (wrap (codes "marshal data: ") e))
    | ok document ↦
        let (tx', result) = db.update tx (update_args s document) in
        elim result [
          | err e ↦ (tx', some e)
          | ok zero ↦ (
            tx',
            some (message (codes "workflow state row not found for job_id " ++ decimal s.job_id)),
          )
          | ok (suc n) ↦ (tx', none)
        ]
  ]

  unfoldable pub pgx_repository : Repository Tx
  unfolding create get update_step
  pgx_repository = record { create = create; get = get; update_step = update_step }
