-- ===== src/Vcd/Request.antt =====
-- internal/clients/vcd/client.go, do, and its callers in org.go and vdc.go.
pub mod Decode
pub mod Attempt
pub mod Retried
pub mod LookUp
pub mod Rejected
pub mod Drained
use hbs_queue.Errors.{GoError, Result, ok, err, message, api, wrap}
use hbs_queue.Prelude.{
  ℕ, String, ◌||◌, Option, none, some, List, [], ◌∷◌, ◌++◌, Bytes, codes, ltb, leb, ◌==◌,
  if◌then◌else◌,
}
use hbs_queue.Prelude.Int.{ℤ, pos}
use hbs_queue.Retry.{do_retry}
use hbs_queue.Strings.{quote}
use hbs_queue.Vcd.Client.{
  HttpResponse, Reader, Platform, Client, Session, api_request, decode_json, get_token, clear_token,
}
use hbs_queue.Vcd.Types.{Organization, OrganizationResult, Vdc, VdcResponse}

abbrev pub max_attempts : ℕ
max_attempts = 3

-- The end of an attempt that got a 2xx response: decode it, if there is a result to decode into.
pub store_result :
    {N R : Type 0}
    → Option (Bytes → R → R × Option GoError)
    → String
    → Bytes
    → HttpResponse
    → Session N R
    → Session N R × Option GoError
unfolding decode_json
store_result none method path resp s = (s, none)
store_result (some f) method path resp s =
    let (v, failed) = decode_json f resp s.result in
    elim failed [
      | none ↦ (record s { result = v }, none)
      | some e ↦ (
        record s { result = v },
        some (wrap (codes "decode " ++ (codes method ++ (b' ' ∷ (path ++ codes ": ")))) e),
      )
    ]

module _ {N R : Type 0} (platform : Platform N) where
  -- What a call of do does with a response; `unmarshal` is none where the result is nil. A failure
  -- that is retryable and one that is not are returned alike.
  unfoldable pub handle_response :
      Option (Bytes → R → R × Option GoError)
      → String
      → Bytes
      → HttpResponse
      → Session N R
      → Session N R × Option GoError
  unfolding store_result clear_token
  handle_response unmarshal method path resp s =
      if resp.status_code == 401
      then (
        clear_token platform s,
        some (api (record { status_code = 401; body = []; method = method; path = path })),
      )
      else if ltb resp.status_code 200 || leb 300 resp.status_code
      then (
        s,
        some (
            api (record {
              status_code = resp.status_code;
              body = resp.body;
              method = method;
              path = path;
            })),
      )
      else store_result unmarshal method path resp s

  -- The function that do hands to the retry helper.
  unfoldable pub attempt :
      Option (Bytes → R → R × Option GoError)
      → String
      → Bytes
      → Option (Reader N)
      → Session N R
      → Session N R × Option GoError
  unfolding get_token handle_response
  attempt unmarshal method path body s =
      let (s', got) = get_token platform s in
      elim got [
        | err e ↦ (s', some (wrap (codes "get token: ") e))
        | ok token ↦ elim (platform.request_error method (s'.client.base_url ++ path)) [
          | some e ↦ (s', some (wrap (codes "create request: ") e))
          | none ↦
              let (net', reply) =
                platform.send s'.client.http_client (api_request s'.client method path token body)
                  s'.net in
              elim reply [
                | err e ↦ (
                  record s' { net = net' },
                  some (wrap (codes method ++ (b' ' ∷ (path ++ codes ": "))) e),
                )
                | ok resp ↦ handle_response unmarshal method path resp (record s' { net = net' })
              ]
        ]
      ]

  -- The random source and the clock, on a session.
  abbrev pub session_rand : ℕ → Session N R → Session N R × Option ℕ
  session_rand max s = let (net', n) = platform.rand_int max s.net in (record s { net = net' }, n)

  abbrev pub session_wait : ℤ → Session N R → Session N R × Option GoError
  session_wait d s = let (net', e) = platform.wait d s.net in (record s { net = net' }, e)

  -- (*Client).do. All attempts share the one reader of the body.
  unfoldable pub do_request :
      Option (Bytes → R → R × Option GoError)
      → String
      → Bytes
      → Option (Reader N)
      → Session N R
      → Session N R × Option GoError
  unfolding do_retry attempt
  do_request unmarshal method path body =
      do_retry session_rand session_wait max_attempts (attempt unmarshal method path body)

-- The zero values that the results start from.
abbrev pub no_organizations : OrganizationResult
no_organizations = record {
  result_total = pos 0;
  page_count = pos 0;
  page = pos 0;
  page_size = pos 0;
  values = [];
}

abbrev pub no_vdcs : VdcResponse
no_vdcs = record {
  result_total = pos 0;
  page_count = pos 0;
  page = pos 0;
  page_size = pos 0;
  values = [];
}

-- The first value of an answer, by how the request went.
first_value : {A : Type 0} → String → Bytes → Option GoError → List A → Result A
unfolding quote
first_value what name (some e) values =
    err (wrap (codes "get " ++ (codes what ++ (b' ' ∷ (quote name ++ codes ": ")))) e)
first_value what name none [] =
    err (message (codes what ++ (b' ' ∷ (quote name ++ codes " not found"))))
first_value what name none (v ∷ values) = ok v

module _ {N : Type 0} (platform : Platform N) where
  unfoldable pub get_organization :
      (Bytes → OrganizationResult → OrganizationResult × Option GoError)
      → Bytes
      → N
      → Client
      → Session N OrganizationResult × Result Organization
  unfolding do_request first_value
  get_organization unmarshal org_name net client =
      let path =
        codes "/cloudapi/1.0.0/orgs?"
        ++ platform.encode_query (("filter", codes "name==" ++ org_name) ∷ []) in
      let (s, failed) =
        do_request platform (some unmarshal) "GET" path none
          (record { net = net; client = client; result = no_organizations }) in
      (s, first_value "organization" org_name failed s.result.values)

  unfoldable pub get_vdc :
      (Bytes → VdcResponse → VdcResponse × Option GoError)
      → Bytes
      → N
      → Client
      → Session N VdcResponse × Result Vdc
  unfolding do_request first_value
  get_vdc unmarshal vdc_name net client =
      let path =
        codes "/cloudapi/1.0.0/vdcs?"
        ++ platform.encode_query (
            ("filter", codes "name==" ++ vdc_name)
            ∷ ("page", codes "1")
            ∷ ("pageSize", codes "25")
            ∷ []) in
      let (s, failed) =
        do_request platform (some unmarshal) "GET" path none
          (record { net = net; client = client; result = no_vdcs }) in
      (s, first_value "vdc" vdc_name failed s.result.values)
