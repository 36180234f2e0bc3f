-- ===== src/Vcd/Request/Drained.antt =====
-- The body of a request over the attempts of do, which share one reader.
use hbs_queue.Errors.{GoError}
use hbs_queue.Prelude.{
  ℕ, zero, suc, ◌-◌, ◌<◌, ◌≡◌, refl, sym, subst, ap, ◌∙◌, String, Option, none, some, List, [], ◌∷◌,
  Bytes, arith, none-ne-some,
}
use hbs_queue.Prelude.Int.{ℤ}
use hbs_queue.Retry.Attempts.{waited, Rounds, do_retry_rule}
use hbs_queue.Retry.Views.{view-waited}
use hbs_queue.Vcd.Client.{Reader, HttpClient, HttpRequest, Platform, Client, Session, api_request}
use hbs_queue.Vcd.Request.Attempt.{attempt_rejected}
use hbs_queue.Vcd.Request.Rejected.{Rejects}
use hbs_queue.Vcd.Request.{attempt, session_rand, session_wait, max_attempts, do_request}

-- What the transport does with the reader `b`, by a log of the bodies that were sent, the latest
-- first: it reads it to its end, after which nothing is left, and nothing else touches either.
pub record ReadsBodies {N : Type 0} (platform : Platform N) (b : Reader N) (bodies : N → List Bytes)
    : Type 0 where
  pub sends :
      (client : HttpClient) (req : HttpRequest N) (net : N)
      → req.body ≡ some b
      → (bodies (platform.send client req net).0 ≡ (b net).1 ∷ bodies net)
        × ((b (platform.send client req net).0).1 ≡ [])
  pub rests :
      (max : ℕ) (net : N)
      → (bodies (platform.rand_int max net).0 ≡ bodies net)
        × ((b (platform.rand_int max net).0).1 ≡ (b net).1)
  pub waits :
      (delay : ℤ) (net : N)
      → (bodies (platform.wait delay net).0 ≡ bodies net)
        × ((b (platform.wait delay net).0).1 ≡ (b net).1)

abbrev empties : ℕ → List Bytes → List Bytes
empties zero log = log
empties (suc n) log = empties n ([] ∷ log)

steps_left : (i : ℕ) → suc i < max_attempts → suc (2 - suc i) ≡ 2 - i
steps_left i more = omega arith

at_last : (i : ℕ) → suc i ≡ max_attempts → 0 ≡ 2 - i
at_last i end = omega arith

module _ {N R : Type 0} (platform : Platform N)
    (unmarshal : Option (Bytes → R → R × Option GoError)) (method : String) (path : Bytes)
    (b : Reader N) (bodies : N → List Bytes) (laws : ReadsBodies platform b bodies) where
  fn : Session N R → Session N R × Option GoError
  fn = attempt platform unmarshal method path (some b)

  -- A rejected attempt sends what is left to read, and leaves nothing.
  rejected_body :
      (t : Session N R)
      → Rejects platform method path (some b) t.client
      → (bodies (fn t).0.net ≡ (b t.net).1 ∷ bodies t.net)
        × ((b (fn t).0.net).1 ≡ [])
        × ((fn t).0.client ≡ t.client)
        × ((e : GoError) × ((fn t).1 ≡ some e))
  unfolding fn
  rejected_body t r =
      let (resp, reply, other, out) = r.rejects t.net in
      let (logged, empty) =
        laws.sends t.client.http_client (api_request t.client method path t.client.token (some b))
          t.net refl in
      rw
        (attempt_rejected platform unmarshal method path (some b) t r.cached r.fits reply other out)
        (logged, empty, refl, (_, refl))

  -- The session that the attempt after one at index `i` starts with: the wait has left the client,
  -- the log and the reader as the attempt left them.
  abbrev next_session : ℕ → Session N R → Session N R
  next_session i t = (waited (session_rand platform) (session_wait platform) fn max_attempts i t).0

  abbrev view : Session N R → Client × List Bytes × Bytes
  view u = (u.client, bodies u.net, (b u.net).1)

  view-next_session : (i : ℕ) (t : Session N R) → view (next_session i t) ≡ view (fn t).0
  view-next_session i t =
      view-waited (session_rand platform) (session_wait platform) view
        (λ m u j. (u.client, (laws.rests m u.net).0 j, (laws.rests m u.net).1 j))
        (λ d u j. (u.client, (laws.waits d u.net).0 j, (laws.waits d u.net).1 j)) fn max_attempts i
        t

  -- From the attempt at index `i` on, what is left to read is sent, and then nothing.
  abbrev SendsLeft : Client → ℕ → Session N R → Session N R × Option GoError → Type 0
  SendsLeft c i t r = t.client ≡ c → bodies r.0.net ≡ empties (2 - i) ((b t.net).1 ∷ bodies t.net)

  module _ (c : Client) (rejects : Rejects platform method path (some b) c) where
    rejected_by :
        (t : Session N R)
        → t.client ≡ c
        → (bodies (fn t).0.net ≡ (b t.net).1 ∷ bodies t.net)
          × ((b (fn t).0.net).1 ≡ [])
          × ((fn t).0.client ≡ t.client)
          × ((e : GoError) × ((fn t).1 ≡ some e))
    rejected_by t same =
        rejected_body t (subst (Rejects platform method path (some b)) (sym same) rejects)

    SendsLeft-next :
        (i : ℕ) (t : Session N R) (r : Session N R × Option GoError)
        → suc i < max_attempts
        → SendsLeft c (suc i) (next_session i t) r
        → SendsLeft c i t r
    SendsLeft-next i t r more next same =
        let (logged, empty, client, _) = rejected_by t same in
        let all = view-next_session i t in
        let log = ap (λ v. v.1) all ∙ logged in
        let rest = ap (λ v. v.2) all ∙ empty in
        next (ap (λ v. v.0) all ∙ (client ∙ same))
        ∙ ap (λ l. empties (2 - suc i) l) (λ j. rest j ∷ log j)
        ∙ ap (λ n. empties n ((b t.net).1 ∷ bodies t.net)) (steps_left i more)

    SendsLeft-Rounds :
        ((delay : ℤ) (net : N) → (platform.wait delay net).1 ≡ none)
        → Rounds (session_rand platform) (session_wait platform) fn max_attempts (SendsLeft c)
    SendsLeft-Rounds passes = record {
      by_success = λ i t e more same. absurd (none-ne-some e (rejected_by t same).3.1);
      by_last = λ i t e h end same.
          (rejected_by t same).0 ∙ ap (λ n. empties n ((b t.net).1 ∷ bodies t.net)) (at_last i end);
      by_end = λ i t e x h more ended same. absurd (none-ne-some (passes _ _) ended);
      by_round = λ i t e r h more passed next. SendsLeft-next i t r more next;
    }

  -- A body is sent once only: with a token cached, a server that answers each request with a status
  -- outside 2xx other than 401, a context that does not end and a transport that reads a body to its
  -- end, do sends three requests, the first with the body and the other two with an empty one.
  pub do_request_drains :
      (s : Session N R)
      → Rejects platform method path (some b) s.client
      → ((delay : ℤ) (net : N) → (platform.wait delay net).1 ≡ none)
      → bodies (do_request platform unmarshal method path (some b) s).0.net
        ≡ [] ∷ [] ∷ (b s.net).1 ∷ bodies s.net
  unfolding do_request fn
  do_request_drains s rejects passes =
      do_retry_rule (session_rand platform) (session_wait platform) fn max_attempts
        (SendsLeft s.client) (SendsLeft-Rounds s.client rejects passes) s (omega arith) refl
