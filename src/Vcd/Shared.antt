-- ===== src/Vcd/Shared.antt =====
-- internal/clients/vcd/client.go, concurrent calls of one client: any number of goroutines, each in
-- getToken, in a request or in clearToken, interleaved in any order. The mutex is taken where it is
-- free. The steps in between are those of Vcd/Client, cut where the network or the mutex is used.
pub mod Invariant
pub mod Mutex
pub mod Safety
pub mod Alone
use hbs_queue.Errors.{GoError, Result, ok, err, wrap}
use hbs_queue.Prelude.{
  ℕ, suc, ◌≡◌, ◌≢◌, String, Option, none, some, ◌++◌, Bytes, codes, str_eq, ◌==◌, if◌then◌else◌,
}
use hbs_queue.Vcd.Client.{
  HttpResponse, Reader, Platform, Client, Session, auth_request, api_request, sessions_path,
  take_token,
}

-- What the goroutines share: the network, the client, who holds its mutex, and two counts: of the
-- logins that gave a token and of the tokens that clearToken dropped. A call of clearToken that
-- finds no token, since another goroutine has dropped it before, drops none and does not count.
pub record Shared (N : Type 0) : Type 0 where
  pub net : N
  pub client : Client
  pub holder : Option ℕ
  pub logins : ℕ
  pub clears : ℕ

-- Where a goroutine stands.
pub data Pc : Type 0 where
  idle : Pc  -- before the Lock of getToken
  checking : Pc  -- behind it
  asking : Pc  -- in authenticate, before the request is sent
  answered : Result HttpResponse → Pc  -- with the answer to it
  leaving : Result String → Pc  -- before the Unlock of getToken
  ready : (token : String) → Pc  -- with the token that getToken returned
  replied : Result HttpResponse → Pc  -- with the answer to the request that carried it
  rejected : Pc  -- before the Lock of clearToken
  clearing : Pc  -- behind it
  cleared : Pc  -- before its Unlock

-- The client as the session of one call.
abbrev pub session : {N : Type 0} → Shared N → Session N (Unit {0})
session s = record { net = s.net; client = s.client; result = tt }

abbrev pub set_token : {N : Type 0} → String → Shared N → Shared N
set_token token s = record s { client = record (s.client) { token = token } }

-- The tokens dropped so far, after one more call of clearToken.
abbrev pub dropped : {N : Type 0} → Shared N → ℕ
dropped s = if str_eq s.client.token "" then s.clears else suc s.clears

module _ {N : Type 0} (platform : Platform N) where
  -- A step of goroutine `i`.
  pub data Move (s : Shared N) (i : ℕ) : Pc → Shared N → Pc → Type 0 where
    lock : s.holder ≡ none → Move s i idle (record s { holder = some i }) checking
    cached : s.client.token ≢ "" → Move s i checking s (leaving (ok s.client.token))
    refuse :
        {e : GoError}
        → s.client.token ≡ ""
        → platform.request_error "POST" (s.client.base_url ++ sessions_path) ≡ some e
        → Move s i checking s (leaving (err (wrap (codes "create auth request: ") e)))
    prepare :
        s.client.token ≡ ""
        → platform.request_error "POST" (s.client.base_url ++ sessions_path) ≡ none
        → Move s i checking s asking
    login :
        Move s i asking
          (record s { net = (platform.send s.client.http_client (auth_request s.client) s.net).0 })
          (answered (platform.send s.client.http_client (auth_request s.client) s.net).1)
    fail :
        {e : GoError}
        → Move s i (answered (err e)) s (leaving (err (wrap (codes "auth request: ") e)))
    deny :
        {resp : HttpResponse} {e : GoError}
        → (take_token platform resp (session s)).1 ≡ some e
        → Move s i (answered (ok resp)) s (leaving (err e))
    accept :
        {resp : HttpResponse}
        → (take_token platform resp (session s)).1 ≡ none
        → Move s i
            (answered (ok resp))
            (record s {
              client = (take_token platform resp (session s)).0.client;
              logins = suc s.logins;
            })
            (leaving (ok (take_token platform resp (session s)).0.client.token))
    unlock : {t : String} → Move s i (leaving (ok t)) (record s { holder = none }) (ready t)
    give_up : {e : GoError} → Move s i (leaving (err e)) (record s { holder = none }) idle
    abandon :
        {t : String} {e : GoError} (method : String) (path : Bytes)
        → platform.request_error method (s.client.base_url ++ path) ≡ some e
        → Move s i (ready t) s idle
    send :
        {t : String} (method : String) (path : Bytes) (body : Option (Reader N))
        → platform.request_error method (s.client.base_url ++ path) ≡ none
        → Move s i
            (ready t)
            (record s {
              net =
                  (platform.send s.client.http_client
                    (api_request s.client method path t body)
                    s.net).0;
            })
            (replied
              (platform.send s.client.http_client
                (api_request s.client method path t body)
                s.net).1)
    reject :
        {resp : HttpResponse} → resp.status_code ≡ 401 → Move s i (replied (ok resp)) s rejected
    finish : {resp : HttpResponse} → resp.status_code ≢ 401 → Move s i (replied (ok resp)) s idle
    lose : {e : GoError} → Move s i (replied (err e)) s idle
    lock_again : s.holder ≡ none → Move s i rejected (record s { holder = some i }) clearing
    clear : Move s i clearing (record (set_token "" s) { clears = dropped s }) cleared
    unlock_again : Move s i cleared (record s { holder = none }) idle

  pub record System : Type 0 where
    pub shared : Shared N
    pub pc : ℕ → Pc

  abbrev pub moved : (ℕ → Pc) → ℕ → Pc → ℕ → Pc
  moved pc i p j = if j == i then p else pc j

  pub data Step (s : System) : System → Type 0 where
    pick :
        (i : ℕ) {m : Shared N} {p : Pc}
        → Move s.shared i (s.pc i) m p
        → Step s (record { shared = m; pc = moved s.pc i p })

  -- A new client, which no goroutine uses yet.
  abbrev pub init : N → Client → System
  init net client = record {
    shared =
        set_token "" (record { net = net; client = client; holder = none; logins = 0; clears = 0 });
    pc = λ i. idle;
  }

  pub data Reach (net : N) (client : Client) : System → Type 0 where
    start : Reach net client (init net client)
    later : {s t : System} → Reach net client s → Step s t → Reach net client t

  -- The steps of one goroutine while the others stand still.
  pub data Run (i : ℕ) : Shared N → Pc → Shared N → Pc → Type 0 where
    stop : {s : Shared N} {p : Pc} → Run i s p s p
    more : {s m t : Shared N} {p q r : Pc} → Move s i p m q → Run i m q t r → Run i s p t r
