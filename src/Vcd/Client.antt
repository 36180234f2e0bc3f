-- ===== src/Vcd/Client.antt =====
-- internal/clients/vcd/client.go and codec.go: the client and its token. The logger is left out, and the
-- mutex too: one call runs at a time. Not under src/, and so the parameter `Platform`: net/http
-- (building a request, sending it), encoding/json and net/url, over a network in state `N`.
pub mod Tokens
use hbs_queue.Errors.{GoError, Result, ok, err, message, api, wrap}
use hbs_queue.Prelude.{
  ℕ, ◌*◌, String, Bool, true, false, Option, none, some, List, [], ◌∷◌, ◌++◌, Bytes, codes, ◌==◌,
  if◌then◌else◌, str_eq,
}
use hbs_queue.Prelude.Int.{ℤ}

pub data Credentials : Type 0 where
  basic : (username password : Bytes) → Credentials
  bearer : String → Credentials

-- io.Reader: what reading it to its end gives, and how that changes the outside world.
abbrev pub Reader : Type 0 → Type 0
Reader N = N → N × Bytes

pub record HttpRequest (N : Type 0) : Type 0 where
  pub method : String
  pub url : Bytes
  pub accept : Bytes
  pub auth : Credentials
  pub body : Option (Reader N)

-- The body as it was read, and the error that reading met, if any.
pub record HttpResponse : Type 0 where
  pub status_code : ℕ
  -- the header X-VMWARE-VCLOUD-ACCESS-TOKEN, "" where it is missing
  pub access_token : String
  pub body : Bytes
  pub read_error : Option GoError

-- The settings that the program chooses for http.Client and its transport, in nanoseconds where they
-- are times.
pub record HttpClient : Type 0 where
  pub timeout : ℕ
  pub min_tls_version : ℕ
  pub dial_timeout : ℕ
  pub keep_alive : ℕ
  pub force_http2 : Bool
  pub max_idle_conns : ℕ
  pub max_idle_conns_per_host : ℕ
  pub idle_conn_timeout : ℕ
  pub tls_handshake_timeout : ℕ
  pub expect_continue_timeout : ℕ

abbrev second : ℕ
second = 1000000000

-- newHTTPClient; the number of TLS 1.2 is 0x0303
abbrev pub new_http_client : HttpClient
new_http_client = record {
  timeout = 30 * second;
  min_tls_version = 0x0303;
  dial_timeout = 30 * second;
  keep_alive = 30 * second;
  force_http2 = true;
  max_idle_conns = 100;
  max_idle_conns_per_host = 100;
  idle_conn_timeout = 90 * second;
  tls_handshake_timeout = 10 * second;
  expect_continue_timeout = 1 * second;
}

pub record Platform (N : Type 0) : Type 0 where
  -- the error of http.NewRequestWithContext for a method and a URL
  pub request_error : String → Bytes → Option GoError
  -- (*http.Client).Do
  pub send : HttpClient → HttpRequest N → N → N × Result HttpResponse
  pub rand_int : ℕ → N → N × Option ℕ
  pub wait : ℤ → N → N × Option GoError
  -- url.Values.Encode
  pub encode_query : List (String × Bytes) → Bytes

pub record Client : Type 0 where
  pub base_url : Bytes
  pub version : Bytes
  pub username : Bytes
  pub password : Bytes
  pub org : Bytes
  -- "" where no token is cached
  pub token : String
  pub http_client : HttpClient

-- strings.TrimRight(s, "/")
abbrev drop_slashes : Bytes → Bytes
drop_slashes [] = []
drop_slashes (c ∷ s) = elim (drop_slashes s) [
  | d ∷ t ↦ c ∷ d ∷ t
  | [] ↦ if c == b'/' then [] else c ∷ []
]

unfoldable pub new : Bytes → Bytes → Bytes → Bytes → Bytes → Client
new base_url version username password org = record {
  base_url = drop_slashes base_url;
  version = version;
  username = username;
  password = password;
  org = org;
  token = "";
  http_client = new_http_client;
}

abbrev pub set_http_client : HttpClient → Client → Client
set_http_client hc c = record c { http_client = hc }

abbrev accept_of : Client → Bytes
accept_of c = codes "application/*;version=" ++ c.version

abbrev pub sessions_path : Bytes
sessions_path = codes "/cloudapi/1.0.0/sessions/provider"

-- The request that authenticate sends.
abbrev pub auth_request : {N : Type 0} → Client → HttpRequest N
auth_request c = record {
  method = "POST";
  url = c.base_url ++ sessions_path;
  accept = accept_of c;
  auth = basic (c.username ++ (b'@' ∷ c.org)) c.password;
  body = none;
}

-- The request that do sends with a token.
abbrev pub api_request :
    {N : Type 0} → Client → String → Bytes → String → Option (Reader N) → HttpRequest N
api_request c method path token body = record {
  method = method;
  url = c.base_url ++ path;
  accept = accept_of c;
  auth = bearer token;
  body = body;
}

-- decodeJSON: the body must have been read whole. json.Unmarshal fills in the value of type `R`
-- that the caller points to, and may change it before it fails.
unfoldable pub decode_json :
    {R : Type 0} → (Bytes → R → R × Option GoError) → HttpResponse → R → R × Option GoError
decode_json unmarshal resp v = elim resp.read_error [
  | some e ↦ (v, some (wrap (codes "read response: ") e))
  | none ↦
      let (v', failed) = unmarshal resp.body v in
      elim failed [ some e ↦ (v', some (wrap (codes "decode json: ") e)) | none ↦ (v', none) ]
]

-- What a call of the client changes: the network, the client's cached token and the result that
-- the caller passed a pointer to.
pub record Session (N R : Type 0) : Type 0 where
  pub net : N
  pub client : Client
  pub result : R

module _ {N R : Type 0} (platform : Platform N) where
  -- What the answer to the session request makes of the token.
  unfoldable pub take_token : HttpResponse → Session N R → Session N R × Option GoError
  take_token resp s =
      if resp.status_code == 200
      then if str_eq resp.access_token ""
        then (s, some (message (codes "auth response missing X-VMWARE-VCLOUD-ACCESS-TOKEN header")))
        else (record s { client = record (s.client) { token = resp.access_token } }, none)
      else (
        s,
        some (
            api (record {
              status_code = resp.status_code;
              body = resp.body;
              method = "POST";
              path = sessions_path;
            })),
      )

  unfoldable pub authenticate : Session N R → Session N R × Option GoError
  unfolding take_token
  authenticate s = elim (platform.request_error "POST" (s.client.base_url ++ sessions_path)) [
    | some e ↦ (s, some (wrap (codes "create auth request: ") e))
    | none ↦
        let (net', reply) = platform.send s.client.http_client (auth_request s.client) s.net in
        elim reply [
          | err e ↦ (record s { net = net' }, some (wrap (codes "auth request: ") e))
          | ok resp ↦ take_token resp (record s { net = net' })
        ]
  ]

  unfoldable pub get_token : Session N R → Session N R × Result String
  unfolding authenticate
  get_token s = elim (str_eq s.client.token "") [
    | false ↦ (s, ok s.client.token)
    | true ↦
        let (s', failed) = authenticate s in
        elim failed [ some e ↦ (s', err e) | none ↦ (s', ok s'.client.token) ]
  ]

  unfoldable pub clear_token : Session N R → Session N R
  clear_token s = record s { client = record (s.client) { token = "" } }
