-- ===== src/Vcd/Request/Attempt.antt =====
-- One attempt of do: the token, the requests it sends, and what a nil result means.
use hbs_queue.Errors.{GoError, Result, ok, api, Result-cases}
use hbs_queue.Prelude.{
  ℕ, ◌+◌, ◌≤◌, ◌<◌, ◌≡◌, ◌≢◌, sym, subst, ◌∙◌, ◌⊎◌, [], String, Option, none, some, Bytes, ◌++◌,
  arith, inl, inr, Bool-cases, Option-cases, ltb, leb, ◌||◌, ◌==◌, ap, ◌*◌,
}
use hbs_queue.Vcd.Client.{
  Reader, HttpClient, HttpRequest, HttpResponse, Platform, Session, api_request, get_token,
  clear_token,
}
use hbs_queue.Vcd.Client.Tokens.{get_token_cached, sent-get_token}
use hbs_queue.Vcd.Request.Decode.{Decoded, store_result_nil, store_result_net}
use hbs_queue.Vcd.Request.{handle_response, attempt}

module _ {N R : Type 0} (platform : Platform N)
    (unmarshal : Option (Bytes → R → R × Option GoError)) (method : String) (path : Bytes)
    (body : Option (Reader N)) where
  -- The session after the token was got, and the reply to the request that carries it.
  abbrev pub with_token : Session N R → Session N R
  with_token s = (get_token platform s).0

  abbrev pub replied : Session N R → String → N × Result HttpResponse
  replied s token =
      platform.send (with_token s).client.http_client
        (api_request (with_token s).client method path token body) (with_token s).net

  -- An attempt that gets a response does with it what handle_response says.
  attempt_responded :
      (s : Session N R) {token : String} {resp : HttpResponse}
      → (get_token platform s).1 ≡ ok token
      → platform.request_error method ((with_token s).client.base_url ++ path) ≡ none
      → (replied s token).1 ≡ ok resp
      → attempt platform unmarshal method path body s
        ≡ handle_response platform unmarshal method path resp
            (record (with_token s) { net = (replied s token).0 })
  unfolding attempt
  attempt_responded s t r q = rw (t, attempt) (rw (r, attempt) (rw (q, attempt)))

  handle_response_nil :
      (resp : HttpResponse) (s : Session N R)
      → (handle_response platform unmarshal method path resp s).1 ≡ none
      → (200 ≤ resp.status_code)
        × (resp.status_code < 300)
        × Decoded unmarshal resp s.result
            (handle_response platform unmarshal method path resp s).0.result
  unfolding handle_response
  handle_response_nil resp s h = elim (Bool-cases (resp.status_code == 401)) [
    | inl x ↦ absurd (let bad = rw (x, handle_response) at h in cc)
    | inr x ↦
        let h₁ = rw (x, handle_response) at h in
        elim (Bool-cases (ltb resp.status_code 200 || leb 300 resp.status_code)) [
          | inl y ↦ absurd (let bad = rw (y, handle_response) at h₁ in cc)
          | inr y ↦ (
            ground arith,
            ground arith,
            rw (x, handle_response)
                (rw (y, handle_response)
                  (store_result_nil unmarshal method path resp s (rw (y, handle_response) at h₁))),
          )
        ]
  ]

  handle_response_net :
      (resp : HttpResponse) (s : Session N R)
      → (handle_response platform unmarshal method path resp s).0.net ≡ s.net
  unfolding handle_response clear_token
  handle_response_net resp s = ground (arith, store_result_net unmarshal method path resp s)

  -- An attempt that returns nil got a token, sent the request with it, and got a 2xx response,
  -- whose body was decoded into the result.
  pub attempt_nil :
      (s : Session N R)
      → (attempt platform unmarshal method path body s).1 ≡ none
      → (token : String) × (resp : HttpResponse) × ((get_token platform s).1 ≡ ok token)
        × ((replied s token).1 ≡ ok resp)
        × (200 ≤ resp.status_code)
        × (resp.status_code < 300)
        × Decoded unmarshal resp
            (with_token s).result
            (attempt platform unmarshal method path body s).0.result
  unfolding attempt
  attempt_nil s h = elim (Result-cases (get_token platform s).1) [
    | inr (e, x) ↦ absurd (let bad = rw (x, attempt) at h in ground arith)
    | inl (token, x) ↦
        let h₁ = rw (x, attempt) at h in
        elim (Option-cases
          (platform.request_error method ((with_token s).client.base_url ++ path))) [
            | inr (e, y) ↦ absurd (let bad = rw (y, attempt) at h₁ in ground arith)
            | inl y ↦
                let h₂ = rw (y, attempt) at h₁ in
                elim (Result-cases (replied s token).1) [
                  | inr (e, z) ↦ absurd (let bad = rw (z, attempt) at h₂ in ground arith)
                  | inl (resp, z) ↦
                      let whole = attempt_responded s x y z in
                      let (low, high, decoded) = handle_response_nil resp _ (rw whole at h) in
                      (token, resp, x, z, low, high, rw whole decoded)
                ]
          ]
  ]

  -- The same where the session and the token that get_token returns are known.
  attempt_got :
      (s s' : Session N R) {token : String} {resp : HttpResponse}
      → get_token platform s ≡ (s', ok token)
      → platform.request_error method (s'.client.base_url ++ path) ≡ none
      → (platform.send s'.client.http_client
          (api_request s'.client method path token body)
          s'.net).1
        ≡ ok resp
      → attempt platform unmarshal method path body s
        ≡ handle_response platform unmarshal method path resp (record s' {
          net =
              (platform.send s'.client.http_client
                (api_request s'.client method path token body)
                s'.net).0;
        })
  attempt_got s s' {token} {resp} got fits reply =
      let same : with_token s ≡ s' = ap (λ p. p.0) got in
      attempt_responded s (ap (λ p. p.1) got)
        (subst (λ t. platform.request_error method (t.client.base_url ++ path) ≡ none) (sym same)
          fits)
        (subst
          (λ t.
            (platform.send t.client.http_client (api_request t.client method path token body)
              t.net).1
            ≡ ok resp)
          (sym same) reply)
      ∙ ap
          (λ t. handle_response platform unmarshal method path resp (record t {
            net =
                (platform.send t.client.http_client (api_request t.client method path token body)
                  t.net).0;
          }))
          same

  -- A response outside 2xx other than 401 makes the attempt fail with it, retryable or not, and
  -- leaves the token.
  pub attempt_rejected :
      (s : Session N R) {resp : HttpResponse}
      → s.client.token ≢ ""
      → platform.request_error method (s.client.base_url ++ path) ≡ none
      → (platform.send s.client.http_client
          (api_request s.client method path s.client.token body)
          s.net).1
        ≡ ok resp
      → resp.status_code ≢ 401
      → (resp.status_code < 200) ⊎ (300 ≤ resp.status_code)
      → attempt platform unmarshal method path body s ≡ (
        record s {
          net =
              (platform.send s.client.http_client
                (api_request s.client method path s.client.token body)
                s.net).0;
        },
        some (
            api (record {
              status_code = resp.status_code;
              body = resp.body;
              method = method;
              path = path;
            })),
      )
  unfolding handle_response
  attempt_rejected s cached fits reply other out =
      attempt_got s s (get_token_cached platform s cached) fits reply ∙ ground arith

  -- A 401 makes the attempt fail with it and drops the token.
  attempt_unauthorized :
      (s : Session N R) {token : String} {resp : HttpResponse}
      → (get_token platform s).1 ≡ ok token
      → platform.request_error method ((with_token s).client.base_url ++ path) ≡ none
      → (replied s token).1 ≡ ok resp
      → resp.status_code ≡ 401
      → ((attempt platform unmarshal method path body s).0.client.token ≡ "")
        × ((attempt platform unmarshal method path body s).1
            ≡ some (api (record { status_code = 401; body = []; method = method; path = path })))
  unfolding handle_response clear_token
  attempt_unauthorized s got fits reply h = rw (attempt_responded s got fits reply) (ground arith)

  module _ (sent : N → ℕ) (per : ℕ)
      (counts : (client : HttpClient) (req : HttpRequest N) (net : N)
        → sent (platform.send client req net).0 ≤ per + sent net) where
    -- An attempt calls the http client twice at most: for a token, and with the request that
    -- carries it.
    pub sent-attempt :
        (s : Session N R)
        → sent (attempt platform unmarshal method path body s).0.net ≤ 2 * per + sent s.net
    unfolding attempt
    sent-attempt s =
        let got = sent-get_token platform sent per counts s in
        elim (Result-cases (get_token platform s).1) [
          | inr (e, x) ↦ rw (x, attempt) (omega arith)
          | inl (token, x) ↦
              let one =
                counts (with_token s).client.http_client
                  (api_request (with_token s).client method path token body) (with_token s).net in
              elim (Option-cases
                (platform.request_error method ((with_token s).client.base_url ++ path))) [
                  | inr (e, y) ↦ rw (x, attempt) (rw (y, attempt) (omega arith))
                  | inl y ↦ elim (Result-cases (replied s token).1) [
                    | inr (e, z) ↦ rw (x, attempt) (rw (y, attempt) (rw (z, attempt) (omega arith)))
                    | inl (resp, z) ↦
                        rw (attempt_responded s x y z) (rw handle_response_net (omega arith))
                  ]
                ]
        ]
