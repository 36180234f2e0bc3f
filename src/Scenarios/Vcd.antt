-- ===== src/Scenarios/Vcd.antt =====
-- Calls of the VCD client on a network that counts the requests and answers each alike.
use hbs_queue.Errors.{ApiError, GoError, ok}
use hbs_queue.Prelude.{
  ℕ, suc, ◌≡◌, ◌≢◌, refl, inr, String, Option, none, some, List, [], ◌∷◌, Bytes, codes, arith,
  eq_iff,
}
use hbs_queue.Vcd.Client.{
  Reader, HttpRequest, HttpResponse, Platform, Client, Session, basic, bearer, new,
}
use hbs_queue.Vcd.Request.Drained.{ReadsBodies, do_request_drains}
use hbs_queue.Vcd.Request.Rejected.{do_request_repeats}
use hbs_queue.Vcd.Request.Retried.{Answered, do_request_nil}
use hbs_queue.Vcd.Request.{do_request}

abbrev word : String → String
word s = s

abbrev reply : ℕ → String → HttpResponse
reply status token = record {
  status_code = status;
  access_token = token;
  body = codes "{}";
  read_error = none;
}

-- A request for a token gets one; any other request gets the status.
abbrev answer_of : ℕ → HttpRequest ℕ → HttpResponse
answer_of status req = elim req.auth [
  | basic user password ↦ reply 200 "tok"
  | bearer token ↦ reply status ""
]

abbrev net : ℕ → Platform ℕ
net status = record {
  request_error = λ method url. none;
  send = λ client req n. (suc n, ok (answer_of status req));
  rand_int = λ max n. (n, none);
  wait = λ d n. (n, none);
  encode_query = λ q. [];
}

abbrev client : Client
client =
    new (codes "https://vcd.test/") (codes "38.1") (codes "admin") (codes "secret") (codes "System")

abbrev path : Bytes
path = codes "/cloudapi/1.0.0/orgs"

abbrev fresh : Session ℕ Bytes
fresh = record { net = 0; client = client; result = [] }

abbrev logged_in : Session ℕ Bytes
logged_in = record { net = 0; client = record client { token = "tok" }; result = [] }

abbrev store : Option (Bytes → Bytes → Bytes × Option GoError)
store = some (λ body v. (body, none))

do_request_nil_example :
    Answered
      (net 200)
      store
      "GET"
      path
      none
      fresh
      (do_request (net 200) store "GET" path none fresh).0
unfolding do_request new
do_request_nil_example = do_request_nil (net 200) store "GET" path none fresh refl

has_token : word "tok" ≢ ""
has_token h = ground (arith, eq_iff "tok" "")

do_request_repeats_example : (do_request (net 404) store "GET" path none logged_in).0.net ≡ 3
do_request_repeats_example =
    do_request_repeats (net 404) store "GET" path none (λ n. n) (λ client req n. refl)
      (λ max n. refl) (λ d n. refl) logged_in
      (record {
        cached = has_token;
        fits = refl;
        rejects = λ n. (reply 404 "", refl, (λ h. ground arith), inr (omega arith));
      })
      (λ d n. refl)

abbrev missing : ApiError
missing = record { status_code = 404; body = []; method = "GET"; path = path }

-- A transport that reads a body to its end and logs it, and a server that knows nothing.
record Wire : Type 0 where
  unread : Bytes
  log : List Bytes

abbrev reader : Reader Wire
reader n = (record n { unread = [] }, n.unread)

abbrev sent_on : HttpRequest Wire → Wire → Wire
sent_on req n = elim req.body [
  | none ↦ n
  | some b ↦ let (n', body) = b n in record n' { log = body ∷ n.log }
]

abbrev wire : Platform Wire
wire = record {
  request_error = λ method url. none;
  send = λ client req n. (sent_on req n, ok (reply 404 ""));
  rand_int = λ max n. (n, none);
  wait = λ d n. (n, none);
  encode_query = λ q. [];
}

wire-ReadsBodies : ReadsBodies wire reader (λ n. n.log)
wire-ReadsBodies = record {
  sends = λ c req net carries. rw (carries, sent_on) (refl, refl);
  rests = λ max net. (refl, refl);
  waits = λ d net. (refl, refl);
}

abbrev posted : Session Wire Bytes
posted = record {
  net = record { unread = codes "{}"; log = [] };
  client = record client { token = "tok" };
  result = [];
}

do_request_drains_example :
    (do_request wire store "POST" path (some reader) posted).0.net.log ≡ [] ∷ [] ∷ codes "{}" ∷ []
do_request_drains_example =
    do_request_drains wire store "POST" path reader (λ n. n.log) wire-ReadsBodies posted
      (record {
        cached = has_token;
        fits = refl;
        rejects = λ n. (reply 404 "", refl, (λ h. ground arith), inr (omega arith));
      })
      (λ d n. refl)
