-- ===== src/Vcd/Request/Rejected.antt =====
-- What do makes of a failure that is not transient.
use native.Mathlib.Nat.{add-zero}
use hbs_queue.Errors.{GoError, ok}
use hbs_queue.Prelude.{
  ℕ, suc, ◌+◌, ◌≤◌, ◌<◌, ◌≡◌, ◌≢◌, refl, sym, subst, ◌∙◌, ◌⊎◌, String, Option, none, some, Bytes,
  ◌++◌, arith, none-ne-some,
}
use hbs_queue.Prelude.Int.{ℤ}
use hbs_queue.Retry.Attempts.{waited, Rounds, do_retry_rule}
use hbs_queue.Retry.Views.{view-waited}
use hbs_queue.Vcd.Client.{
  Reader, HttpClient, HttpRequest, HttpResponse, Platform, Client, Session, api_request,
}
use hbs_queue.Vcd.Request.Attempt.{attempt_rejected}
use hbs_queue.Vcd.Request.Retried.{sent-waited}
use hbs_queue.Vcd.Request.{attempt, session_rand, session_wait, max_attempts, do_request}

-- Every request of the client `c` is answered with a status outside 2xx other than 401.
pub record Rejects {N : Type 0} (platform : Platform N) (method : String) (path : Bytes)
    (body : Option (Reader N)) (c : Client) : Type 0 where
  pub cached : c.token ≢ ""
  pub fits : platform.request_error method (c.base_url ++ path) ≡ none
  pub rejects :
      (net : N)
      → (resp : HttpResponse) × ((platform.send c.http_client
            (api_request c method path c.token body)
            net).1
          ≡ ok resp)
        × (resp.status_code ≢ 401)
        × ((resp.status_code < 200) ⊎ (300 ≤ resp.status_code))

module _ {N R : Type 0} (platform : Platform N)
    (unmarshal : Option (Bytes → R → R × Option GoError)) (method : String) (path : Bytes)
    (body : Option (Reader N)) (sent : N → ℕ)
    (counts : (client : HttpClient) (req : HttpRequest N) (net : N)
      → sent (platform.send client req net).0 ≡ suc (sent net))
    (quiet_rand : (max : ℕ) (net : N) → sent (platform.rand_int max net).0 ≡ sent net)
    (quiet_wait : (delay : ℤ) (net : N) → sent (platform.wait delay net).0 ≡ sent net) where
  fn : Session N R → Session N R × Option GoError
  fn = attempt platform unmarshal method path body

  -- One rejected attempt sends one request, keeps the client and fails.
  rejected_once :
      (t : Session N R)
      → Rejects platform method path body t.client
      → (sent (fn t).0.net ≡ suc (sent t.net))
        × ((fn t).0.client ≡ t.client)
        × ((e : GoError) × ((fn t).1 ≡ some e))
  unfolding fn
  rejected_once t r =
      let (resp, reply, other, out) = r.rejects t.net in
      rw (attempt_rejected platform unmarshal method path body t r.cached r.fits reply other out) (
        counts t.client.http_client (api_request t.client method path t.client.token body) t.net,
        refl,
        (_, refl),
      )

  abbrev next_session : ℕ → Session N R → Session N R
  next_session i t = (waited (session_rand platform) (session_wait platform) fn max_attempts i t).0

  client-next_session : (i : ℕ) (t : Session N R) → (next_session i t).client ≡ (fn t).0.client
  client-next_session i t =
      view-waited (session_rand platform) (session_wait platform) (λ u. u.client) (λ m u. refl)
        (λ d u. refl) fn max_attempts i t

  sent-next_session : (i : ℕ) (t : Session N R) → sent (next_session i t).net ≡ sent (fn t).0.net
  sent-next_session i t =
      sent-waited platform unmarshal method path body sent quiet_rand quiet_wait fn max_attempts i t

  -- From the attempt at index `i` on, each attempt that is left sends one request.
  abbrev SendsLeft : Client → ℕ → Session N R → Session N R × Option GoError → Type 0
  SendsLeft c i t r = t.client ≡ c → sent r.0.net + i ≡ sent t.net + 3

  SendsLeft-Rounds :
      (c : Client)
      → Rejects platform method path body c
      → ((delay : ℤ) (net : N) → (platform.wait delay net).1 ≡ none)
      → Rounds (session_rand platform) (session_wait platform) fn max_attempts (SendsLeft c)
  SendsLeft-Rounds c rejects passes =
      let one : (t : Session N R)
          → t.client ≡ c
          → (sent (fn t).0.net ≡ suc (sent t.net))
            × ((fn t).0.client ≡ t.client)
            × ((e : GoError) × ((fn t).1 ≡ some e)) =
        λ t same. rejected_once t (subst (Rejects platform method path body) (sym same) rejects) in
      record {
        by_success = λ i t e more same. absurd (none-ne-some e (one t same).2.1);
        by_last = λ i t e h at_end same. omega (arith, (one t same).0);
        by_end = λ i t e x h more ended same. absurd (none-ne-some (passes _ _) ended);
        by_round = λ i t e r h more passed next same. omega (
          arith,
          (one t same).0,
          sent-next_session i t,
          next (client-next_session i t ∙ ((one t same).1 ∙ same)),
        );
      }

  -- Every rejection is tried again: with a token cached and a server that answers each request
  -- with a status outside 2xx other than 401, be it transient or not, as a 404 is not, do sends
  -- the request three times, as long as the context does not end. (A call of the http client counts
  -- as one, whatever redirects it follows.)
  pub do_request_repeats :
      (s : Session N R)
      → Rejects platform method path body s.client
      → ((delay : ℤ) (net : N) → (platform.wait delay net).1 ≡ none)
      → sent (do_request platform unmarshal method path body s).0.net ≡ sent s.net + 3
  unfolding do_request fn
  do_request_repeats s rejects passes = rw add-zero at (
      do_retry_rule (session_rand platform) (session_wait platform) fn max_attempts
        (SendsLeft s.client) (SendsLeft-Rounds s.client rejects passes) s (omega arith) refl)
