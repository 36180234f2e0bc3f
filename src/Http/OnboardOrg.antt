-- ===== src/Http/OnboardOrg.antt =====
-- internal/httpapi/handle_onboard_org.go: the handler that queues an onboarding job, over the VCD
-- client, the connection pool and the queue's InsertTx.
pub mod Replies
pub mod Queued
use hbs_queue.Errors.{GoError, Result, ok, err}
use hbs_queue.Errors.Text.{error_text}
use hbs_queue.Http.Message.{Request, Writer, Served, error_response, job_accepted_response, encode}
use hbs_queue.Http.Requests.{
  OnboardOrgRequest, onboard_org_valid, checked, invalid, malformed, decode_valid,
}
use hbs_queue.Jobs.Args.{OnboardOrgArgs}
use hbs_queue.Jobs.OnboardOrg.{Pool}
use hbs_queue.Prelude.{ℕ, true, false, Option, none, some, [], ◌++◌, Bytes, codes, utf8}
use hbs_queue.Vcd.Client.{Platform, Client}
use hbs_queue.Vcd.Request.{get_organization}
use hbs_queue.Vcd.Types.{OrganizationResult}

-- The world of the handler: the network, the VCD client if one is configured, and what the
-- database has committed.
pub record Backend (N S : Type 0) : Type 0 where
  pub net : N
  pub client : Option Client
  pub store : S

-- The job's payload, field by field.
unfoldable pub order_args : OnboardOrgRequest → OnboardOrgArgs
order_args r = record {
  client_id = r.client_id;
  organization_name = r.organization_name;
  client_username = r.client_username;
  client_first_name = r.client_first_name;
  client_last_name = r.client_last_name;
  client_email = r.client_email;
  account_id = r.account_id;
  country = r.country;
  state = r.state;
  postal_code = r.postal_code;
  max_zerto_storage = r.max_zerto_storage;
  max_zerto_vms = r.max_zerto_vms;
  bandwidth = r.bandwidth;
  product_id = r.product_id;
}

module _ {N S : Type 0} where
  abbrev pub reply_error : ℕ → Bytes → Backend N S → Writer → Served (Backend N S)
  reply_error code why w writer = record {
    world = w;
    writer = encode code (error_response why []) writer;
    panicked = false;
  }

  -- A reply that starts with `prefix` and ends in the text of an error, whose Error may panic.
  abbrev pub reply_with :
      (Bytes → Bytes) → ℕ → Bytes → GoError → Backend N S → Writer → Served (Backend N S)
  reply_with lower code prefix e w writer = elim (error_text lower e) [
    | none ↦ record { world = w; writer = writer; panicked = true }
    | some why ↦ reply_error code (prefix ++ why) w writer
  ]

module _ (unicode_lower : Bytes → Bytes) {N S Tx : Type 0} (platform : Platform N)
    (unmarshal : Bytes → OrganizationResult → OrganizationResult × Option GoError)
    (pool : Pool S Tx) (insert_job : Tx → OnboardOrgArgs → Tx × Result ℕ)
    (decode : Bytes → Option GoError → Result OnboardOrgRequest) where
  -- From the lookup on: one transaction, with its deferred rollback.
  unfoldable pub enqueue : OnboardOrgArgs → Backend N S → Writer → Served (Backend N S)
  enqueue args w writer = elim (pool.begin w.store) [
    | err e ↦ reply_error 500 (codes "internal error") w writer
    | ok tx ↦
        let (tx', inserted) = insert_job tx args in
        elim inserted [
          | err e ↦
              reply_error 500 (codes "failed to enqueue job")
                (record w { store = pool.rollback w.store tx' }) writer
          | ok id ↦
              let (store, failed) = pool.commit w.store tx' in
              let ended = record w { store = pool.rollback store tx' } in
              elim failed [
                | some e ↦ reply_error 500 (codes "internal error") ended writer
                | none ↦ record {
                  world = ended;
                  writer = encode 202 (job_accepted_response id "") writer;
                  panicked = false;
                }
              ]
        ]
  ]

  unfoldable pub look_up : OnboardOrgRequest → Backend N S → Writer → Served (Backend N S)
  unfolding get_organization error_text enqueue order_args
  look_up req w writer = elim w.client [
    | none ↦ reply_error 503 (codes "vcd client not configured") w writer
    | some client ↦
        let (session, found) =
          get_organization platform unmarshal (utf8 req.client_id) w.net client in
        let w' = record w { net = session.net; client = some session.client } in
        elim found [
          | err e ↦ reply_with unicode_lower 502 (codes "vcd lookup failed: ") e w' writer
          | ok org ↦ enqueue (order_args req) w' writer
        ]
  ]

  unfoldable pub handle_onboard_org : Backend N S → Request → Writer → Served (Backend N S)
  unfolding decode_valid onboard_org_valid look_up
  handle_onboard_org w r writer = elim (decode_valid decode onboard_org_valid r) [
    | malformed e ↦ reply_with unicode_lower 400 [] e w writer
    | invalid problems ↦ record {
      world = w;
      writer = encode 422 (error_response (codes "validation failed") problems) writer;
      panicked = false;
    }
    | checked req ↦ look_up req w writer
  ]
