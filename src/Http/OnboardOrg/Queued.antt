-- ===== src/Http/OnboardOrg/Queued.antt =====
-- What an accepted order has done, and what any other answer leaves alone.
use hbs_queue.Errors.{GoError, Result, ok, Result-cases}
use hbs_queue.Http.Message.{Request, Writer, Served, job_accepted_response, error_response, encode}
use hbs_queue.Http.OnboardOrg.Replies.{reply_with_status, decode_valid-cases}
use hbs_queue.Http.Message.Status.{encode_not_202}
use hbs_queue.Http.OnboardOrg.{Backend, order_args, enqueue, look_up, handle_onboard_org}
use hbs_queue.Http.Requests.{OnboardOrgRequest, onboard_org_valid}
use hbs_queue.Jobs.Args.{OnboardOrgArgs}
use hbs_queue.Jobs.OnboardOrg.{Pool, PoolLaws}
use hbs_queue.Prelude.{
  ℕ, ◌≡◌, ◌≢◌, refl, ap, ◌⊎◌, inl, inr, Option, none, some, [], Bytes, codes, arith, Option-cases,
  utf8,
}
use hbs_queue.Vcd.Client.{Platform, Client}
use hbs_queue.Vcd.Request.{get_organization}
use hbs_queue.Vcd.Types.{Organization, OrganizationResult}

module _ (unicode_lower : Bytes → Bytes) {N S Tx : Type 0} (platform : Platform N)
    (unmarshal : Bytes → OrganizationResult → OrganizationResult × Option GoError)
    (pool : Pool S Tx) (laws : PoolLaws pool) (insert_job : Tx → OnboardOrgArgs → Tx × Result ℕ)
    (decode : Bytes → Option GoError → Result OnboardOrgRequest) (writer : Writer)
    (fresh : writer.status ≡ none) where
  -- One job with these arguments was inserted and committed, and the reply carries its number.
  pub record Enqueued (args : OnboardOrgArgs) (s : S) (served : Served (Backend N S)) : Type 0 where
    pub tx : Tx
    pub begun : pool.begin s ≡ ok tx
    pub id : ℕ
    pub inserted : (insert_job tx args).1 ≡ ok id
    pub committed : (pool.commit s (insert_job tx args).0).1 ≡ none
    pub stored : served.world.store ≡ (pool.commit s (insert_job tx args).0).0
    pub replied : served.writer ≡ encode 202 (job_accepted_response id "") writer

  -- The commit of the transaction that was begun for this job, and into which the job was
  -- inserted, was answered with an error.
  pub record CommitFailed (args : OnboardOrgArgs) (s t : S) : Type 0 where
    pub tx : Tx
    pub begun : pool.begin s ≡ ok tx
    pub id : ℕ
    pub inserted : (insert_job tx args).1 ≡ ok id
    pub error : GoError
    pub refused : (pool.commit s (insert_job tx args).0).1 ≡ some error
    pub stored : t ≡ (pool.commit s (insert_job tx args).0).0

  -- The reply is no 202, and the database is as it was, unless the commit of this job failed.
  abbrev Refused : OnboardOrgArgs → S → Served (Backend N S) → Type 0
  Refused args s served =
      (served.writer.status ≢ some 202)
      × ((served.world.store ≡ s) ⊎ CommitFailed args s served.world.store)

  -- The request has a valid order, of which the job was inserted, but its commit failed.
  abbrev pub OrderFailed : Request → S → S → Type 0
  OrderFailed r s t =
      (order : OnboardOrgRequest) × (decode r.body r.body_error ≡ ok order)
      × (onboard_org_valid order ≡ [])
      × CommitFailed (order_args order) s t

  -- Anything else is no 202, and leaves the database as it was, unless the request has a valid order
  -- and the commit of the transaction with its job failed.
  abbrev pub Declined : Request → S → Served (Backend N S) → Type 0
  Declined r s served =
      (served.writer.status ≢ some 202)
      × ((served.world.store ≡ s) ⊎ OrderFailed r s served.world.store)

  internal_error : (why : Bytes) → (encode 500 (error_response why []) writer).status ≢ some 202
  internal_error why = encode_not_202 500 (error_response why []) writer fresh (λ h. ground arith)

  enqueue_lem :
      (args : OnboardOrgArgs) (w : Backend N S)
      → let served =
          enqueue unicode_lower platform unmarshal pool insert_job decode args w writer in
        Enqueued args w.store served ⊎ Refused args w.store served
  unfolding enqueue
  enqueue_lem args w = elim (Result-cases (pool.begin w.store)) [
    | inr (e, a) ↦ inr (rw (a, enqueue) (internal_error (codes "internal error"), inl refl))
    | inl (tx, a) ↦ elim (Result-cases (insert_job tx args).1) [
      | inr (e, b) ↦ inr (
          rw (a, enqueue)
            (rw (b, enqueue)
              (
                internal_error (codes "failed to enqueue job"),
                inl (laws.rollback_discards w.store (insert_job tx args).0),
              )))
      | inl (id, b) ↦ elim (Option-cases (pool.commit w.store (insert_job tx args).0).1) [
        | inr (e, c) ↦ inr (
            rw (a, enqueue)
              (rw (b, enqueue)
                (rw (c, enqueue)
                  (
                    internal_error (codes "internal error"),
                    inr (record {
                      tx = tx;
                      begun = a;
                      id = id;
                      inserted = b;
                      error = e;
                      refused = c;
                      stored = laws.rollback_discards _ _;
                    }),
                  ))))
        | inl c ↦ inl (record {
          tx = tx;
          begun = a;
          id = id;
          inserted = b;
          committed = c;
          stored = rw (a, enqueue) (rw (b, enqueue) (rw (c, enqueue) (laws.rollback_discards _ _)));
          replied = rw (a, enqueue) (rw (b, enqueue) (rw (c, enqueue) refl));
        })
      ]
    ]
  ]

  abbrev handled : Backend N S → Request → Served (Backend N S)
  handled w r =
      handle_onboard_org unicode_lower platform unmarshal pool insert_job decode w r writer

  -- The order was decoded, is valid and names an organization that was found, and its job was
  -- queued.
  pub record Accepted (w : Backend N S) (r : Request) (served : Served (Backend N S)) : Type 0 where
    pub order : OnboardOrgRequest
    pub decoded : decode r.body r.body_error ≡ ok order
    pub valid : onboard_org_valid order ≡ []
    pub client : Client
    pub configured : w.client ≡ some client
    pub organization : Organization
    pub found :
        (get_organization platform unmarshal (utf8 order.client_id) w.net client).1
        ≡ ok organization
    pub queued : Enqueued (order_args order) w.store served

  look_up_lem :
      (req : OnboardOrgRequest) (w : Backend N S)
      → let served = look_up unicode_lower platform unmarshal pool insert_job decode req w writer in
        ((client : Client) × (w.client ≡ some client)
          × (organization : Organization) × ((get_organization platform unmarshal
                (utf8 req.client_id)
                w.net
                client).1
              ≡ ok organization)
          × Enqueued (order_args req) w.store served)
        ⊎ Refused (order_args req) w.store served
  unfolding look_up
  look_up_lem req w = elim (Option-cases w.client) [
    | inl a ↦ inr (
        rw (a, look_up)
          (
            encode_not_202 503 (error_response (codes "vcd client not configured") []) writer fresh
                (λ h. ground arith),
            inl refl,
          ))
    | inr (client, a) ↦
        let asked = get_organization platform unmarshal (utf8 req.client_id) w.net client in
        let w' = record w { net = asked.0.net; client = some asked.0.client } in
        elim (Result-cases asked.1) [
          | inr (e, b) ↦
              let (no_202, same) =
                reply_with_status unicode_lower 502 (codes "vcd lookup failed: ") e w' writer fresh
                  (λ h. ground arith) in
              inr (rw (a, look_up) (rw (b, look_up) (no_202, inl (ap (λ v. v.store) same))))
          | inl (organization, b) ↦ elim (enqueue_lem (order_args req) w') [
            | inl queued ↦
                inl (client, a, organization, b, rw (a, look_up) (rw (b, look_up) queued))
            | inr declined ↦ inr (rw (a, look_up) (rw (b, look_up) declined))
          ]
        ]
  ]

  -- On a fresh response, an order is either accepted: it was decoded, is valid and names an
  -- organization that the VCD has, a job with its fields was inserted and committed in one
  -- transaction, and the reply is 202 with the number of the job; or the answer is not 202, and
  -- the database is as it was, unless the order is valid and the commit of the very transaction that
  -- was begun for it, and into which its job was inserted, was answered with an error: then the
  -- database is as this commit left it.
  pub handle_onboard_org_lem :
      (w : Backend N S) (r : Request)
      → Accepted w r (handled w r) ⊎ Declined r w.store (handled w r)
  unfolding handle_onboard_org
  handle_onboard_org_lem w r = elim (decode_valid-cases decode onboard_org_valid r) [
    | inr (inr (e, a)) ↦
        let (no_202, same) =
          reply_with_status unicode_lower 400 [] e w writer fresh (λ h. ground arith) in
        inr (rw (a, handle_onboard_org) (no_202, inl (ap (λ v. v.store) same)))
    | inr (inl (problems, a)) ↦ inr (
        rw (a, handle_onboard_org)
          (
            encode_not_202 422 (error_response (codes "validation failed") problems) writer fresh
                (λ h. ground arith),
            inl refl,
          ))
    | inl (req, got, good, a) ↦ elim (look_up_lem req w) [
      | inr (no_202, inl same) ↦ inr (rw (a, handle_onboard_org) (no_202, inl same))
      | inr (no_202, inr refused) ↦
          inr (rw (a, handle_onboard_org) (no_202, inr (req, got, good, refused)))
      | inl (client, configured, organization, found, queued) ↦ inl (record {
        order = req;
        decoded = got;
        valid = good;
        client = client;
        configured = configured;
        organization = organization;
        found = found;
        queued = rw (a, handle_onboard_org) queued;
      })
    ]
  ]
