-- ===== src/Vcd/Request/LookUp.antt =====
-- What a look-up by name that succeeds has read.
use hbs_queue.Errors.{GoError, ok}
use hbs_queue.Prelude.{
  ℕ, ◌≤◌, ◌<◌, ◌≡◌, refl, Option, none, some, List, [], ◌∷◌, ◌++◌, String, Bytes, codes,
}
use hbs_queue.Vcd.Client.{HttpResponse, Platform, Client, Session, get_token}
use hbs_queue.Vcd.Request.Attempt.{with_token, replied}
use hbs_queue.Vcd.Request.Retried.{Attempted, do_request_nil}
use hbs_queue.Vcd.Request.{
  no_organizations, no_vdcs, first_value, do_request, get_organization, get_vdc, max_attempts,
}
use hbs_queue.Vcd.Types.{Organization, OrganizationResult, Vdc, VdcResponse}

-- The value stands first in what a response with a 2xx status was decoded into, whole and with no
-- error. The response answers the last attempt of the call that starts in the session `s`, whose
-- request carried the token that getToken returned in that attempt.
pub record FoundBy {N R A : Type 0} (platform : Platform N)
    (unmarshal : Bytes → R → R × Option GoError) (path : Bytes) (values : R → List A)
    (s : Session N R) (v : A) : Type 0 where
  pub index : ℕ
  pub asked : Session N R
  pub tried : Attempted platform (some unmarshal) "GET" path none s index asked
  pub allowed : index < max_attempts
  pub token : String
  pub authorized : (get_token platform asked).1 ≡ ok token
  pub response : HttpResponse
  pub answered : (replied platform (some unmarshal) "GET" path none asked token).1 ≡ ok response
  pub status : (200 ≤ response.status_code) × (response.status_code < 300)
  pub read : response.read_error ≡ none
  pub before : R
  pub after : R
  pub decoded : unmarshal response.body before ≡ (after, none)
  pub more : List A
  pub first : values after ≡ v ∷ more

first_value_ok :
    {A : Type 0} (what : String) (name : Bytes) (failed : Option GoError) (values : List A) (v : A)
    → first_value what name failed values ≡ ok v
    → (failed ≡ none) × (more : List A) × (values ≡ v ∷ more)
unfolding first_value
first_value_ok what name (some e) values v h = absurd (let bad = h in cc)
first_value_ok what name none [] v h = absurd (let bad = h in cc)
first_value_ok what name none (x ∷ values) v h = (refl, values, cc)

module _ {N : Type 0} (platform : Platform N) where
  do_request-FoundBy :
      {R A : Type 0} (unmarshal : Bytes → R → R × Option GoError) (path : Bytes)
      (values : R → List A) (what : String) (name : Bytes) (v : A) (s : Session N R)
      → let (t, failed) = do_request platform (some unmarshal) "GET" path none s in
        first_value what name failed (values t.result) ≡ ok v
        → FoundBy platform unmarshal path values s v
  do_request-FoundBy unmarshal path values what name v s h =
      let (nil, more, first) = first_value_ok what name _ _ v h in
      let (
        i,
        t,
        token,
        resp,
        tried,
        more_left,
        same,
        authorized,
        answered,
        low,
        high,
        (read, decoded),
      ) =
        do_request_nil platform (some unmarshal) "GET" path none s nil in
      record {
        index = i;
        asked = t;
        tried = tried;
        allowed = more_left;
        token = token;
        authorized = authorized;
        response = resp;
        answered = answered;
        status = (low, high);
        read = read;
        before = (with_token platform (some unmarshal) "GET" path none t).result;
        after = (do_request platform (some unmarshal) "GET" path none s).0.result;
        decoded = decoded;
        more = more;
        first = first;
      }

  abbrev pub organizations_path : Bytes → Bytes
  organizations_path name =
      codes "/cloudapi/1.0.0/orgs?"
      ++ platform.encode_query (("filter", codes "name==" ++ name) ∷ [])

  abbrev pub vdcs_path : Bytes → Bytes
  vdcs_path name =
      codes "/cloudapi/1.0.0/vdcs?"
      ++ platform.encode_query
          (("filter", codes "name==" ++ name) ∷ ("page", codes "1") ∷ ("pageSize", codes "25") ∷ [])

  -- Where GetOrganization returns an organization, the server had one under that query: it is the
  -- first value of a 2xx response, read whole and decoded with no error, to a GET with the filter on
  -- its name, which an attempt of this very call, begun with the call's network and client, sent
  -- with the token that getToken returned in that attempt.
  pub get_organization_ok :
      (unmarshal : Bytes → OrganizationResult → OrganizationResult × Option GoError) (name : Bytes)
      (net : N) (client : Client) (v : Organization)
      → (get_organization platform unmarshal name net client).1 ≡ ok v
      → FoundBy platform unmarshal
          (organizations_path name)
          (λ r. r.values)
          (record { net = net; client = client; result = no_organizations })
          v
  unfolding get_organization
  get_organization_ok unmarshal name net client v h =
      do_request-FoundBy unmarshal (organizations_path name) (λ r. r.values) "organization" name v
        (record { net = net; client = client; result = no_organizations }) h

  -- The same for GetVDC.
  get_vdc_ok :
      (unmarshal : Bytes → VdcResponse → VdcResponse × Option GoError) (name : Bytes) (net : N)
      (client : Client) (v : Vdc)
      → (get_vdc platform unmarshal name net client).1 ≡ ok v
      → FoundBy platform unmarshal
          (vdcs_path name)
          (λ r. r.values)
          (record { net = net; client = client; result = no_vdcs })
          v
  unfolding get_vdc
  get_vdc_ok unmarshal name net client v h =
      do_request-FoundBy unmarshal (vdcs_path name) (λ r. r.values) "vdc" name v
        (record { net = net; client = client; result = no_vdcs }) h
