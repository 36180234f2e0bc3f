-- ===== src/Vcd/Request/Retried.antt =====
-- The whole of do: how many requests it sends, what a nil result means, and which failures it
-- tries again.
use hbs_queue.Errors.{GoError, ok}
use hbs_queue.Prelude.{
  ℕ, suc, ◌+◌, ◌*◌, ◌≤◌, ◌<◌, ◌≡◌, refl, subst, ap, String, Option, none, Bytes, arith,
  none-ne-some,
}
use hbs_queue.Prelude.Int.{ℤ}
use hbs_queue.Retry.{do_retry}
use hbs_queue.Retry.Attempts.{
  Tried, Ends, succeeded, exhausted, cancelled, waited, Rounds, do_retry_rule, do_retry-Ends,
}
use hbs_queue.Retry.Views.{view-waited}
use hbs_queue.Vcd.Client.{
  Reader, HttpClient, HttpRequest, HttpResponse, Platform, Session, get_token,
}
use hbs_queue.Vcd.Request.Attempt.{with_token, replied, attempt_nil, sent-attempt}
use hbs_queue.Vcd.Request.Decode.{Decoded}
use hbs_queue.Vcd.Request.{attempt, session_rand, session_wait, max_attempts, do_request}

-- The attempts that are left at index `i` leave room for one more.
room : (i k : ℕ) → i < 3 → k + i * k ≤ 3 * k
room i k h = grind arith

next_round : (i k : ℕ) → suc i * k ≡ k + i * k
next_round i k = omega arith

module _ {N R : Type 0} (platform : Platform N)
    (unmarshal : Option (Bytes → R → R × Option GoError)) (method : String) (path : Bytes)
    (body : Option (Reader N)) where
  -- The sessions that the attempts of a call from the session `s` on start with.
  abbrev pub Attempted : Session N R → ℕ → Session N R → Type 0
  Attempted s i t =
      Tried (session_rand platform) (session_wait platform)
        (attempt platform unmarshal method path body) max_attempts s i t

  -- A call from the session `s` on, which ends in the session `last`, has had an answer: one of its
  -- three attempts, the one that left the session `last`, got a token, sent a request that carried
  -- it and received a 2xx response, which was decoded into the result.
  abbrev pub Answered : Session N R → Session N R → Type 0
  Answered s last =
      (i : ℕ) × (t : Session N R) × (token : String) × (resp : HttpResponse) × Attempted s i t
      × (i < max_attempts)
      × ((attempt platform unmarshal method path body t).0 ≡ last)
      × ((get_token platform t).1 ≡ ok token)
      × ((replied platform unmarshal method path body t token).1 ≡ ok resp)
      × (200 ≤ resp.status_code)
      × (resp.status_code < 300)
      × Decoded unmarshal resp (with_token platform unmarshal method path body t).result last.result

  attempt-Answered :
      (s : Session N R) (i : ℕ) (t : Session N R)
      → Attempted s i t
      → i < max_attempts
      → (attempt platform unmarshal method path body t).1 ≡ none
      → Answered s (attempt platform unmarshal method path body t).0
  attempt-Answered s i t tried more nil =
      let (token, resp, a, b, c, d, decoded) =
        attempt_nil platform unmarshal method path body t nil in
      (i, t, token, resp, tried, more, refl, a, b, c, d, decoded)

  Ends-Answered :
      (s : Session N R) (last : Session N R × Option GoError)
      → last.1 ≡ none
      → Ends
          (session_rand platform)
          (session_wait platform)
          (attempt platform unmarshal method path body)
          max_attempts
          s
          last
      → Answered s last.0
  Ends-Answered s last nil (succeeded i t tried more e x) =
      subst (λ p. Answered s p.0) e (attempt-Answered s i t tried more (ap (λ p. p.1) e))
  Ends-Answered s last nil (exhausted i t x tried at_end e y) = absurd (none-ne-some nil y)
  Ends-Answered s last nil (cancelled i t x c tried more h ended y) =
      absurd (none-ne-some nil (ap (λ p. p.1) y))

  -- Where do returns nil, the last of its attempts, at most three, succeeded. Each attempt but the
  -- first starts in the session that a failed attempt and the wait after it have left. The last one
  -- got a token from getToken in the session it started in, sent a request that carried this token
  -- and received a 2xx response, which was decoded into the result that the caller sees.
  pub do_request_nil :
      (s : Session N R)
      → (do_request platform unmarshal method path body s).1 ≡ none
      → Answered s (do_request platform unmarshal method path body s).0
  unfolding do_request
  do_request_nil s nil =
      Ends-Answered s
        (do_retry (session_rand platform) (session_wait platform) max_attempts
          (attempt platform unmarshal method path body) s)
        nil
        (do_retry-Ends (session_rand platform) (session_wait platform)
          (attempt platform unmarshal method path body) max_attempts s (omega arith))

  module _ (sent : N → ℕ)
      (quiet_rand : (max : ℕ) (net : N) → sent (platform.rand_int max net).0 ≡ sent net)
      (quiet_wait : (delay : ℤ) (net : N) → sent (platform.wait delay net).0 ≡ sent net) where
    pub sent-waited :
        (fn : Session N R → Session N R × Option GoError) (max i : ℕ) (s : Session N R)
        → sent (waited (session_rand platform) (session_wait platform) fn max i s).0.net
          ≡ sent (fn s).0.net
    sent-waited fn max i s =
        view-waited (session_rand platform) (session_wait platform) (λ t. sent t.net)
          (λ m t. quiet_rand m t.net) (λ d t. quiet_wait d t.net) fn max i s

  module _ (sent : N → ℕ) (per : ℕ)
      (counts : (client : HttpClient) (req : HttpRequest N) (net : N)
        → sent (platform.send client req net).0 ≤ per + sent net)
      (quiet_rand : (max : ℕ) (net : N) → sent (platform.rand_int max net).0 ≡ sent net)
      (quiet_wait : (delay : ℤ) (net : N) → sent (platform.wait delay net).0 ≡ sent net) where
    -- Whatever the server answers, do sends what six calls of the http client send at most, each of
    -- which sends at most `per` requests: a token request and the request itself for each of three
    -- attempts.
    pub do_request_sends :
        (s : Session N R)
        → sent (do_request platform unmarshal method path body s).0.net ≤ 6 * per + sent s.net
    unfolding do_request
    do_request_sends s =
        let r =
          do_retry_rule (session_rand platform) (session_wait platform) fn max_attempts Q rounds s
            (omega arith) in
        omega (arith, r)
      where
        fn : Session N R → Session N R × Option GoError
        fn = attempt platform unmarshal method path body

        Q : ℕ → Session N R → Session N R × Option GoError → Type 0
        Q i t r = sent r.0.net + i * (2 * per) ≤ sent t.net + 3 * (2 * per)

        one : (t : Session N R) → sent (fn t).0.net ≤ 2 * per + sent t.net
        one t = sent-attempt platform unmarshal method path body sent per counts t

        rounds : Rounds (session_rand platform) (session_wait platform) fn max_attempts Q
        rounds = record {
          by_success = λ i t e more. omega (arith, one t, room i (2 * per) more);
          by_last = λ i t e h at_end. omega (arith, one t, room i (2 * per) (omega arith));
          by_end = λ i t e c h more ended. omega (
            arith,
            one t,
            room i (2 * per) (omega arith),
            sent-waited sent quiet_rand quiet_wait fn max_attempts i t,
          );
          by_round = λ i t e r h more passed next. omega (
            arith,
            one t,
            next_round i (2 * per),
            sent-waited sent quiet_rand quiet_wait fn max_attempts i t,
          );
        }
