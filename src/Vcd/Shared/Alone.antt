-- ===== src/Vcd/Shared/Alone.antt =====
-- A call of getToken that no other goroutine disturbs: the steps of Vcd/Shared and the function of
-- Vcd/Client are the same call.
use hbs_queue.Errors.{Result, ok, err, wrap}
use hbs_queue.Prelude.{
  ℕ, ◌≡◌, String, none, some, ◌++◌, arith, refl, ap, sym, subst, codes, Bool-cases, Option-cases,
  inl, inr, eq_iff, str_eq,
}
use hbs_queue.Vcd.Client.{
  Platform, Session, HttpResponse, take_token, sessions_path, get_token, authenticate, auth_request,
}
use hbs_queue.Vcd.Client.Tokens.{take_token_err, take_token_net}
use hbs_queue.Vcd.Shared.{
  Shared, Pc, Move, idle, checking, answered, leaving, ready, session, lock, cached, refuse,
  prepare, login, fail, deny, accept, unlock, give_up, Run, stop, more,
}

-- Where getToken leaves its goroutine.
abbrev pub after : Result String → Pc
after (ok t) = ready t
after (err _) = idle

abbrev pub Agrees : {N : Type 0} → Shared N → Session N (Unit {0}) → Type 0
Agrees m s = (m.net ≡ s.net) × (m.client ≡ s.client) × (m.holder ≡ none)

module _ {N : Type 0} (platform : Platform N) where
  -- The steps of goroutine `i` alone lead to where the session and the result of a call are.
  pub data Ends (s : Shared N) (i : ℕ) (p : Pc) (r : Session N (Unit {0}) × Result String)
      : Type 0 where
    ends : (m : Shared N) → Run platform i s p m (after r.1) → Agrees m r.0 → Ends s i p r

  leave : (s : Shared N) (i : ℕ) (r : Result String) → Ends s i (leaving r) (session s, r)
  leave s i (ok t) = ends _ (more unlock stop) (refl, refl, refl)
  leave s i (err e) = ends _ (more give_up stop) (refl, refl, refl)

  step :
      {s m : Shared N} {i : ℕ} {p q : Pc} {r : Session N (Unit {0}) × Result String}
      → Move platform s i p m q
      → Ends m i q r
      → Ends s i p r
  step move (ends m run agrees) = ends m (more move run) agrees

  -- getToken once the answer to its login is there.
  abbrev reply_to_login : Shared N → Result HttpResponse → Session N (Unit {0}) × Result String
  reply_to_login s (err e) = (session s, err (wrap (codes "auth request: ") e))
  reply_to_login s (ok resp) = elim (take_token platform resp (session s)).1 [
    | some e ↦ ((take_token platform resp (session s)).0, err e)
    | none ↦ (
      (take_token platform resp (session s)).0,
      ok (take_token platform resp (session s)).0.client.token,
    )
  ]

  from_answer :
      (s : Shared N) (i : ℕ) (reply : Result HttpResponse)
      → Ends s i (answered reply) (reply_to_login s reply)
  from_answer s i (err e) = step fail (leave s i _)
  from_answer s i (ok resp) = elim (Option-cases (take_token platform resp (session s)).1) [
    | inr (w, e) ↦
        rw (e, reply_to_login)
          (step (deny e) (
            ends _ (more give_up stop) (
              sym (take_token_net platform resp (session s)),
              sym (
                  ap (λ (x : Session N (Unit {0})). x.client)
                    (take_token_err platform resp (session s) w e)),
              refl,
            )))
    | inl e ↦
        rw (e, reply_to_login)
          (step (accept e) (
            ends _ (more unlock stop) (sym (take_token_net platform resp (session s)), refl, refl)))
  ]

  from_checking : (s : Shared N) (i : ℕ) → Ends s i checking (get_token platform (session s))
  unfolding get_token authenticate
  from_checking s i = elim (Bool-cases (str_eq s.client.token "")) [
    | inr e ↦
        let eq : get_token platform (session s) ≡ (session s, ok s.client.token) =
          rw (e, get_token) refl in
        subst (Ends s i checking) (sym eq)
          (step (cached (ground (arith, eq_iff s.client.token ""))) (leave s i _))
    | inl e ↦
        elim (Option-cases (platform.request_error "POST" (s.client.base_url ++ sessions_path))) [
          | inr (w, f) ↦
              let eq : get_token platform (session s)
                  ≡ (session s, err (wrap (codes "create auth request: ") w)) =
                ground arith in
              subst (Ends s i checking) (sym eq)
                (step (refuse (ground (arith, eq_iff s.client.token "")) f) (leave s i _))
          | inl f ↦
              let eq : get_token platform (session s)
                  ≡ reply_to_login
                      (record s {
                        net = (platform.send s.client.http_client (auth_request s.client) s.net).0;
                      })
                      (platform.send s.client.http_client (auth_request s.client) s.net).1 =
                ground arith in
              subst (Ends s i checking) (sym eq) (
                step (prepare (ground (arith, eq_iff s.client.token "")) f)
                  (step login (from_answer _ i _)))
        ]
  ]

  -- Where the mutex is free, a goroutine that runs alone from the start of getToken has the steps
  -- to where getToken leaves it: with the function's token, or back at idle on the function's
  -- error, with the network and the client that the function leaves and the mutex free again.
  pub run_alone :
      (s : Shared N) (i : ℕ) → s.holder ≡ none → Ends s i idle (get_token platform (session s))
  run_alone s i free = step (lock free) (from_checking (record s { holder = some i }) i)
