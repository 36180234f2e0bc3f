-- ===== src/Scenarios/Order.antt =====
-- An order that is accepted.
use hbs_queue.Errors.{GoError, Result, ok}
use hbs_queue.Http.Message.{Headers, Request, Writer, Served, set_header}
use hbs_queue.Http.OnboardOrg.Queued.{Accepted, Declined, handle_onboard_org_lem}
use hbs_queue.Http.OnboardOrg.{Backend, handle_onboard_org}
use hbs_queue.Http.Requests.Valid.{IsValidOrder, onboard_org_valid_iff}
use hbs_queue.Http.Requests.{OnboardOrgRequest, onboard_org_valid}
use hbs_queue.Jobs.Args.{OnboardOrgArgs}
use hbs_queue.Jobs.OnboardOrg.{Pool, PoolLaws}
use hbs_queue.Prelude.{
  ℕ, suc, ◌≡◌, ◌≢◌, ◌↔◌, ◌⊎◌, inl, refl, String, true, false, Option, none, some, List, [], ◌∷◌,
  Bytes, codes, arith,
}
use hbs_queue.Prelude.Int.{pos}
use hbs_queue.Vcd.Request.LookUp.{FoundBy, organizations_path, get_organization_ok}
use hbs_queue.Vcd.Request.{get_organization, no_organizations}
use hbs_queue.Vcd.Client.{Platform, new}
use hbs_queue.Vcd.Types.{Organization, OrganizationResult}

abbrev blank : Writer
blank = record {
  headers = λ n. none;
  status = none;
  sent_headers = λ n. none;
  body = [];
  recorded = 0;
}

abbrev sent_with : String → Headers → Request
sent_with method headers = record {
  method = method;
  path = codes "/hooks/update-pw";
  headers = headers;
  body = codes "{}";
  body_error = none;
  request_id = none;
}

abbrev keyed : Request
keyed = sent_with "POST" (set_header "X-API-Key" (codes "k1") (λ n. none))

abbrev order : OnboardOrgRequest
order = record {
  organization_name = "Acme";
  client_username = "jd";
  client_first_name = "Jo";
  client_last_name = "Doe";
  client_email = "jo@acme.test";
  client_id = "crm-1";
  account_id = pos 4;
  country = "US";
  state = "FL";
  postal_code = "33101";
  max_zerto_storage = pos 100;
  max_zerto_vms = pos 5;
  bandwidth = "100";
  product_id = "p1";
}

onboard_org_valid_iff_example : (onboard_org_valid order ≡ []) ↔ IsValidOrder order
onboard_org_valid_iff_example = onboard_org_valid_iff order

-- The VCD knows one organization.
abbrev acme : Organization
acme = record {
  id = "urn:vcloud:org:1";
  name = "crm-1";
  display_name = "Acme";
  description = "";
  is_enabled = true;
  org_vdc_count = pos 1;
  catalog_count = pos 0;
  vapp_count = pos 0;
  running_vm_count = pos 0;
  user_count = pos 0;
  disk_count = pos 0;
  can_publish = false;
}

abbrev one_organization : Bytes → OrganizationResult → OrganizationResult × Option GoError
one_organization body before = (record before { values = acme ∷ [] }, none)

abbrev vcd : Platform ℕ
vcd = record {
  request_error = λ method url. none;
  send = λ client req n. (
    suc n,
    ok (record { status_code = 200; access_token = "tok"; body = []; read_error = none }),
  );
  rand_int = λ max n. (n, none);
  wait = λ d n. (n, none);
  encode_query = λ q. [];
}

-- The database holds the queued jobs.
abbrev Queue : Type 0
Queue = List OnboardOrgArgs

abbrev pool : Pool Queue Queue
pool = record { begin = λ s. ok s; commit = λ s tx. (tx, none); rollback = λ s tx. s }

queue_laws : PoolLaws pool
queue_laws = record {
  rollback_discards = λ s tx. refl;
  begin-commit = λ s tx later committed begun. ground arith;
  begin-commit_atomic = λ s tx later begun. inl (ground arith);
}

abbrev insert_job : Queue → OnboardOrgArgs → Queue × Result ℕ
insert_job q args = (args ∷ q, ok 41)

abbrev decode : Bytes → Option GoError → Result OnboardOrgRequest
decode body failed = ok order

abbrev backend : Backend ℕ Queue
backend = record {
  net = 0;
  client = some (new (codes "https://vcd.test") (codes "38.1") [] [] []);
  store = [];
}

abbrev same : Bytes → Bytes
same s = s

abbrev handled : Served (Backend ℕ Queue)
handled = handle_onboard_org same vcd one_organization pool insert_job decode backend keyed blank

handle_onboard_org_lem_example :
    Accepted same vcd one_organization pool queue_laws insert_job decode blank refl backend keyed
      handled
    ⊎ Declined same vcd one_organization pool queue_laws insert_job decode blank refl keyed []
        handled
handle_onboard_org_lem_example =
    handle_onboard_org_lem same vcd one_organization pool queue_laws insert_job decode blank refl
      backend keyed

-- It is accepted: one job is queued.
order_queued : (handled.writer.status ≡ some 202) × (handled.world.store ≢ [])
unfolding handle_onboard_org new
order_queued = (refl, (λ h. ground arith))

get_organization_ok_example :
    FoundBy vcd one_organization
      (organizations_path vcd (codes "crm-1"))
      (λ r. r.values)
      (record {
        net = 0;
        client = new (codes "https://vcd.test") (codes "38.1") [] [] [];
        result = no_organizations;
      })
      acme
unfolding get_organization new
get_organization_ok_example =
    get_organization_ok vcd one_organization (codes "crm-1") 0
      (new (codes "https://vcd.test") (codes "38.1") [] [] []) acme refl
