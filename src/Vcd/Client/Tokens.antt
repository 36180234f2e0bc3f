-- ===== src/Vcd/Client/Tokens.antt =====
-- The cached token, and the requests that getting one sends.
use hbs_queue.Errors.{GoError, ok, Result-cases}
use hbs_queue.Prelude.{
  ℕ, ◌≤◌, ◌≡◌, ◌≢◌, false, String, none, some, ◌++◌, arith, inl, inr, Bool-cases, Option-cases,
  str_eq, eq_iff, ◌+◌,
}
use hbs_queue.Vcd.Client.{
  HttpClient, HttpRequest, HttpResponse, Platform, Session, auth_request, sessions_path, take_token,
  authenticate, get_token,
}

module _ {N R : Type 0} (platform : Platform N) where
  pub take_token_ok :
      (resp : HttpResponse) (s : Session N R)
      → (take_token platform resp s).1 ≡ none
      → (take_token platform resp s).0.client.token ≢ ""
  unfolding take_token
  take_token_ok resp s h = ground (arith, eq_iff resp.access_token "")

  pub take_token_net :
      (resp : HttpResponse) (s : Session N R) → (take_token platform resp s).0.net ≡ s.net
  unfolding take_token
  take_token_net resp s = ground arith

  pub take_token_err :
      (resp : HttpResponse) (s : Session N R) (e : GoError)
      → (take_token platform resp s).1 ≡ some e
      → (take_token platform resp s).0 ≡ s
  unfolding take_token
  take_token_err resp s e h = ground arith

  authenticate_ok :
      (s : Session N R)
      → (authenticate platform s).1 ≡ none
      → (authenticate platform s).0.client.token ≢ ""
  unfolding authenticate
  authenticate_ok s h =
      elim (Option-cases (platform.request_error "POST" (s.client.base_url ++ sessions_path))) [
        | inr (e, x) ↦ absurd (let bad = rw (x, authenticate) at h in ground arith)
        | inl x ↦
            let h₁ = rw (x, authenticate) at h in
            elim (Result-cases
              (platform.send s.client.http_client (auth_request s.client) s.net).1) [
                | inr (e, y) ↦ absurd (let bad = rw (y, authenticate) at h₁ in ground arith)
                | inl (resp, y) ↦
                    rw (x, authenticate)
                      (rw (y, authenticate) (take_token_ok resp _ (rw (y, authenticate) at h₁)))
              ]
      ]

  -- With a cached token nothing is sent.
  pub get_token_cached :
      (s : Session N R) → s.client.token ≢ "" → get_token platform s ≡ (s, ok s.client.token)
  unfolding get_token
  get_token_cached s h =
      let cached : str_eq s.client.token "" ≡ false = ground (arith, eq_iff s.client.token "") in
      rw (cached, get_token)

  -- A token that is handed out is not empty, and it is the one that is cached.
  get_token_ok :
      (s : Session N R) (t : String)
      → (get_token platform s).1 ≡ ok t
      → (t ≢ "") × ((get_token platform s).0.client.token ≡ t)
  unfolding get_token
  get_token_ok s t h = elim (Bool-cases (str_eq s.client.token "")) [
    | inr cached ↦
        let h₁ = rw (cached, get_token) at h in
        rw (cached, get_token) (ground (arith, eq_iff s.client.token ""))
    | inl missing ↦
        let h₁ = rw (missing, get_token) at h in
        elim (Option-cases (authenticate platform s).1) [
          | inr (e, x) ↦ absurd (let bad = rw (x, get_token) at h₁ in ground arith)
          | inl x ↦
              let h₂ = rw (x, get_token) at h₁ in
              rw (missing, get_token) (rw (x, get_token) (ground (arith, authenticate_ok s x)))
        ]
  ]

  -- `per` bounds the requests that one call of the http client sends.
  module _ (sent : N → ℕ) (per : ℕ)
      (counts : (client : HttpClient) (req : HttpRequest N) (net : N)
        → sent (platform.send client req net).0 ≤ per + sent net) where
    sent-authenticate : (s : Session N R) → sent (authenticate platform s).0.net ≤ per + sent s.net
    unfolding authenticate
    sent-authenticate s =
        elim (Option-cases (platform.request_error "POST" (s.client.base_url ++ sessions_path))) [
          | inr (e, x) ↦ rw (x, authenticate) (omega arith)
          | inl x ↦
              elim (Result-cases
                (platform.send s.client.http_client (auth_request s.client) s.net).1) [
                  | inr (e, y) ↦
                      rw (x, authenticate)
                        (rw (y, authenticate)
                          (omega
                            (arith, counts s.client.http_client (auth_request s.client) s.net)))
                  | inl (resp, y) ↦
                      rw (x, authenticate)
                        (rw (y, authenticate)
                          (rw take_token_net (
                            omega
                              (arith, counts s.client.http_client (auth_request s.client) s.net))))
                ]
        ]

    -- Getting a token calls the http client once at most.
    pub sent-get_token : (s : Session N R) → sent (get_token platform s).0.net ≤ per + sent s.net
    unfolding get_token
    sent-get_token s = elim (Bool-cases (str_eq s.client.token "")) [
      | inr cached ↦ rw (cached, get_token) (omega arith)
      | inl missing ↦ elim (Option-cases (authenticate platform s).1) [
        | inl x ↦ rw (missing, get_token) (rw (x, get_token) (sent-authenticate s))
        | inr (e, x) ↦ rw (missing, get_token) (rw (x, get_token) (sent-authenticate s))
      ]
    ]
