-- ===== src/Scenarios/Fulfilled.antt =====
-- An order from its request to its completed workflow, over a store in memory.
use hbs_queue.Jobs.OnboardOrg.{fits_columns}
use hbs_queue.Errors.{GoError, Result, ok, not_found, is_err_not_found}
use hbs_queue.Http.Message.{
  Request, Writer, Served, Handler, answered, http_error, set_header, header_value,
}
use hbs_queue.Http.OnboardOrg.{Backend, handle_onboard_org, order_args}
use hbs_queue.Http.Requests.{OnboardOrgRequest, EchoRequest}
use hbs_queue.Orders.{Fulfilled, OrderFits}
use hbs_queue.Orders.Calls.{service_sends}
use hbs_queue.Orders.Service.{service-Fulfilled}
use hbs_queue.Http.Service.Keyless.{service_keyless}
use hbs_queue.Http.Service.{World, MuxLaws, service}
use hbs_queue.Http.Routes.{Route, add_routes}
use hbs_queue.Http.Numbers.{same_bytes}
use hbs_queue.Http.Middleware.{
  LogLine, api_key_auth, new_server, request_id, request_logger, panic_recovery,
}
use hbs_queue.Config.{BuildInfo, load}
use mathlib.Core.List.Memᴰ.{head, tail}
use mathlib.Core.List.{Memᴰ}
use hbs_queue.Prelude.{
  ℕ, ◌≤◌, suc, refl, true, false, Option, none, some, [], ◌∷◌, Bytes, codes, arith, ◌≡◌, String,
  ◌≢◌, ◌⊎◌, inl, inr, List, ◌++◌, Bool-cases, str_eq, if◌then◌else◌, subst,
}
use hbs_queue.Prelude.Int.{pos}
use hbs_queue.Scenarios.Store.{
  Store, repo, repo-RepositoryLaws, repo-IsAvailable, pool, pool-PoolLaws, insert_job, job_of,
  reachable,
}
use hbs_queue.Vcd.Client.{Platform, new}
use hbs_queue.Vcd.Types.{Organization, OrganizationResult}

abbrev order : OnboardOrgRequest
order = record {
  organization_name = "Acme";
  client_username = "jd";
  client_first_name = "Jo";
  client_last_name = "Doe";
  client_email = "jo@acme.test";
  client_id = "crm-1";
  account_id = pos 4;
  country = "US";
  state = "FL";
  postal_code = "33101";
  max_zerto_storage = pos 100;
  max_zerto_vms = pos 5;
  bandwidth = "100";
  product_id = "p1";
}

-- The VCD knows one organization.
abbrev acme : Organization
acme = record {
  id = "urn:vcloud:org:1";
  name = "crm-1";
  display_name = "Acme";
  description = "";
  is_enabled = true;
  org_vdc_count = pos 1;
  catalog_count = pos 0;
  vapp_count = pos 0;
  running_vm_count = pos 0;
  user_count = pos 0;
  disk_count = pos 0;
  can_publish = false;
}

abbrev one_organization : Bytes → OrganizationResult → OrganizationResult × Option GoError
one_organization body before = (record before { values = acme ∷ [] }, none)

abbrev vcd : Platform ℕ
vcd = record {
  request_error = λ method url. none;
  send = λ client req n. (
    suc n,
    ok (record { status_code = 200; access_token = "tok"; body = []; read_error = none }),
  );
  rand_int = λ max n. (n, none);
  wait = λ d n. (n, none);
  encode_query = λ q. [];
}

abbrev same_text : Bytes → Bytes
same_text s = s

abbrev decode : Bytes → Option GoError → Result OnboardOrgRequest
decode body failed = ok order

abbrev backend : Backend ℕ Store
backend = record {
  net = 0;
  client = some (new (codes "https://vcd.test") (codes "38.1") [] [] []);
  store = record { rows = λ job. none; job = none };
}

abbrev request : Request
request = record {
  method = "POST";
  path = codes "/api/v1/script/onboard-org";
  headers = set_header "X-API-Key" (codes "k1") (λ n. none);
  body = codes "{}";
  body_error = none;
  request_id = none;
}

abbrev blank : Writer
blank = record {
  headers = λ n. none;
  status = none;
  sent_headers = λ n. none;
  body = [];
  recorded = 0;
}

abbrev mux : List (Route (World (Backend ℕ Store) ℕ)) → Handler (World (Backend ℕ Store) ℕ)
mux [] w r writer = answered w (http_error (codes "404 page not found") 404 writer)
mux (route ∷ table) w r writer =
    let later = mux table w r writer in
    if same_bytes (codes route.pattern) (codes r.method ++ (32 ∷ r.path))
    then route.handler w r writer
    else later

mux-MuxLaws : MuxLaws mux
mux-MuxLaws = record { dispatches = dispatches }
  where
    dispatches :
        (table : List (Route (World (Backend ℕ Store) ℕ))) (w : World (Backend ℕ Store) ℕ)
        (r : Request) (writer : Writer)
        → ((route : Route (World (Backend ℕ Store) ℕ)) × Memᴰ route table
            × (mux table w r writer ≡ route.handler w r writer))
          ⊎ (((mux table w r writer).world ≡ w)
              × (writer.status ≡ none → (mux table w r writer).writer.status ≢ some 202))
    dispatches [] w r writer = inr (refl, λ fresh. rw fresh (λ h. ground arith))
    dispatches (route ∷ table) w r writer =
        elim (Bool-cases (same_bytes (codes route.pattern) (codes r.method ++ (32 ∷ r.path)))) [
          | inl e ↦ inl (route, head refl, rw (e, mux) refl)
          | inr e ↦ elim (dispatches table w r writer) [
            | inl (found, there, same) ↦ inl (found, tail there, rw (e, mux) same)
            | inr (same, other) ↦ inr (rw (e, mux) (same, other))
          ]
        ]

abbrev word : String → String
word s = s

abbrev getenv : String → String
getenv key = if str_eq key "API_KEY" then "k1" else if str_eq key "ENV" then "prod" else ""

abbrev build : BuildInfo
build = record { version = "dev"; commit = "none"; build_time = "unknown" }

abbrev world : World (Backend ℕ Store) ℕ
world = record { backend = backend; rest = 0 }

-- The world of the steps, which do nothing to it.
abbrev idle : ℕ
idle = 0

abbrev read : ℕ → ℕ × Bytes
read n = (suc n, 7 ∷ [])

abbrev log : LogLine → ℕ → ℕ
log line n = n

abbrev hash : Bytes → Bytes → Bytes
hash secret text = text

abbrev decode_echo : Bytes → Option GoError → Result EchoRequest
decode_echo body failed = ok (record { message = body })

abbrev served : Request → Served (World (Backend ℕ Store) ℕ)
served r =
    service (λ n. pos 0) (λ b. none) decode_echo hash
      (handle_onboard_org same_text vcd one_organization pool insert_job decode) mux read log
      (load build getenv) world r blank

order_fits : OrderFits decode (codes "{}") none
unfolding fits_columns order_args
order_fits o h =
    let same : order ≡ o = let e = h in cc in
    subst (λ x. fits_columns (order_args x) ≡ true) same refl

service-Fulfilled_example :
    (word "k1" ≢ "")
    × (header_value request.headers "X-API-Key" ≡ codes "k1")
    × Fulfilled same_text pool job_of decode repo
        (codes "{}")
        none
        (served request).world.backend.store
        idle
unfolding service new_server add_routes api_key_auth request_id request_logger panic_recovery load
    handle_onboard_org new is_err_not_found same_bytes
service-Fulfilled_example =
    service-Fulfilled same_text vcd one_organization pool pool-PoolLaws insert_job decode repo
      repo-RepositoryLaws repo-IsAvailable job_of reachable mux mux-MuxLaws read log (λ n. pos 0)
      (λ b. none) decode_echo hash (load build getenv) world request blank idle
      (λ tx later args id begun inserted again. (not_found, (ground arith), refl)) order_fits refl
      refl

service_keyless_example : (served (record request { headers = λ n. none })).world.backend ≡ backend
unfolding load
service_keyless_example =
    service_keyless mux mux-MuxLaws read log (λ n. pos 0) (λ b. none) decode_echo hash
      (handle_onboard_org same_text vcd one_organization pool insert_job decode) (load build getenv)
      world (record request { headers = λ n. none }) blank (inr (λ h. ground arith))

service_sends_example : (served request).world.backend.net ≤ 6
unfolding load
service_sends_example =
    service_sends same_text vcd one_organization pool insert_job decode (λ n. n) 1
      (λ client req n. omega arith) (λ max n. refl) (λ d n. refl) mux mux-MuxLaws read log
      (λ n. pos 0) (λ b. none) decode_echo hash (load build getenv) world request blank
