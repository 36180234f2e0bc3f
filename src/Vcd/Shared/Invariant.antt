-- ===== src/Vcd/Shared/Invariant.antt =====
-- What holds in every state that concurrent calls of one client can reach.
use hbs_queue.Errors.{ok, err}
use hbs_queue.Prelude.{
  ℕ, ◌+◌, ◌≤◌, ◌≡◌, ◌≢◌, none, some, arith, if◌then◌else◌, str_eq, eq_iff, ◌==◌, ◌∙◌, sym, refl,
  subst, Bool-cases, inl, inr,
}
use hbs_queue.Vcd.Client.{Platform, Client, take_token}
use hbs_queue.Vcd.Client.Tokens.{take_token_ok}
use hbs_queue.Vcd.Shared.{
  Shared, Pc, idle, checking, asking, answered, leaving, ready, replied, rejected, clearing,
  cleared, session, Move, lock, cached, refuse, prepare, login, fail, deny, accept, unlock, give_up,
  abandon, send, reject, finish, lose, lock_again, clear, unlock_again, System, moved, Step, pick,
  init, Reach, start, later,
}

-- What is known of a goroutine from where it stands.
abbrev pub At : {N : Type 0} → Shared N → ℕ → Pc → Type 0
At s i idle = Unit {0}
At s i checking = s.holder ≡ some i
At s i asking = (s.holder ≡ some i) × (s.client.token ≡ "")
At s i (answered _) = (s.holder ≡ some i) × (s.client.token ≡ "")
At s i (leaving (ok t)) = (s.holder ≡ some i) × (t ≢ "")
At s i (leaving (err _)) = s.holder ≡ some i
At s i (ready t) = t ≢ ""
At s i (replied _) = Unit {0}
At s i rejected = Unit {0}
At s i clearing = s.holder ≡ some i
At s i cleared = s.holder ≡ some i

-- The tokens that are cached now, and the bound that they give.
abbrev pub cached_tokens : {N : Type 0} → Shared N → ℕ
cached_tokens s = if str_eq s.client.token "" then 0 else 1

abbrev pub IsBounded : {N : Type 0} → Shared N → Type 0
IsBounded s = s.logins ≤ (s.clears + cached_tokens s)

-- What a step leaves to the other goroutines: the mutex and the token as they were, unless the
-- goroutine of the step took a free mutex or held it.
abbrev Frames : {N : Type 0} → Shared N → ℕ → Shared N → Type 0
Frames s i m =
    (j : ℕ) → j ≢ i → s.holder ≡ some j → (m.holder ≡ some j) × (m.client.token ≡ s.client.token)

At-frames :
    {N : Type 0} (s m : Shared N) (i j : ℕ) (p : Pc) → Frames s i m → j ≢ i → At s j p → At m j p
At-frames s m i j idle f n h = tt
At-frames s m i j checking f n h = (f j n h).0
At-frames s m i j asking f n (h, e) = ((f j n h).0, (f j n h).1 ∙ e)
At-frames s m i j (answered _) f n (h, e) = ((f j n h).0, (f j n h).1 ∙ e)
At-frames s m i j (leaving (ok t)) f n (h, e) = ((f j n h).0, e)
At-frames s m i j (leaving (err _)) f n h = (f j n h).0
At-frames s m i j (ready t) f n h = h
At-frames s m i j (replied _) f n h = tt
At-frames s m i j rejected f n h = tt
At-frames s m i j clearing f n h = (f j n h).0
At-frames s m i j cleared f n h = (f j n h).0

same : {N : Type 0} (s : Shared N) (i : ℕ) → Frames s i s
same s i j n h = (h, refl)

-- A goroutine that holds the mutex excludes that it is free or that another one holds it.
not_free : {N : Type 0} (s : Shared N) (j : ℕ) → s.holder ≡ none → s.holder ≢ some j
not_free s j free h = absurd (let bad = (sym free) ∙ h in cc)

not_other : {N : Type 0} (s : Shared N) (i j : ℕ) → s.holder ≡ some i → j ≢ i → s.holder ≢ some j
not_other s i j mine n h = absurd (ground arith)

module _ {N : Type 0} (platform : Platform N) where
  Move-At :
      (s : Shared N) (i : ℕ) (p : Pc) (m : Shared N) (q : Pc)
      → Move platform s i p m q
      → At s i p
      → IsBounded s
      → (At m i q) × (IsBounded m) × (Frames s i m)
  Move-At s i _ _ _ (lock free) h b = (refl, b, λ j n k. absurd (not_free s j free k))
  Move-At s i _ _ _ (cached full) h b = ((h, full), b, same s i)
  Move-At s i _ _ _ (refuse empty _) h b = (h, b, same s i)
  Move-At s i _ _ _ (prepare empty _) h b = ((h, empty), b, same s i)
  Move-At s i _ _ _ login h b = (h, b, λ j n k. (k, refl))
  Move-At s i _ _ _ fail (h, _) b = (h, b, same s i)
  Move-At s i _ _ _ (deny _) (h, _) b = (h, b, same s i)
  Move-At s i _ _ _ (accept {resp} e) (h, empty) b =
      let full = take_token_ok platform resp (session s) e in
      let tokens = (take_token platform resp (session s)).0.client in
      (
        (h, full),
        ground (arith, eq_iff s.client.token "", eq_iff tokens.token ""),
        λ j n k. absurd (not_other s i j h n k),
      )
  Move-At s i _ _ _ unlock (h, full) b = (full, b, λ j n k. absurd (not_other s i j h n k))
  Move-At s i _ _ _ give_up h b = (tt, b, λ j n k. absurd (not_other s i j h n k))
  Move-At s i _ _ _ (abandon _ _ _) h b = (tt, b, same s i)
  Move-At s i _ _ _ (send _ _ _ _) h b = (tt, b, λ j n k. (k, refl))
  Move-At s i _ _ _ (reject _) h b = (tt, b, same s i)
  Move-At s i _ _ _ (finish _) h b = (tt, b, same s i)
  Move-At s i _ _ _ lose h b = (tt, b, same s i)
  Move-At s i _ _ _ (lock_again free) h b = (refl, b, λ j n k. absurd (not_free s j free k))
  Move-At s i _ _ _ clear h b =
      (h, ground (arith, eq_iff s.client.token ""), λ j n k. absurd (not_other s i j h n k))
  Move-At s i _ _ _ unlock_again h b = (tt, b, λ j n k. absurd (not_other s i j h n k))

  pub record IsSound (s : System platform) : Type 0 where
    pub every : (i : ℕ) → At s.shared i (s.pc i)
    pub bounded : IsBounded s.shared

  moved-At :
      (s : System platform) (i : ℕ) (m : Shared N) (p : Pc)
      → IsSound s
      → At m i p
      → Frames s.shared i m
      → (j : ℕ) → At m j (moved platform s.pc i p j)
  moved-At s i m p h mine f j = elim (Bool-cases (j == i)) [
    | inl e ↦
        let same : j ≡ i = ground (arith, e) in
        rw (e, moved) (subst (λ k. At m k p) (sym same) mine)
    | inr e ↦
        let other : j ≢ i = ground (arith, e) in
        rw (e, moved) (At-frames s.shared m i j (s.pc j) f other (h.every j))
  ]

  init-IsSound : (net : N) (client : Client) → IsSound (init platform net client)
  init-IsSound net client = record { every = λ i. tt; bounded = ground arith }

  Step-IsSound : {s t : System platform} → IsSound s → Step platform s t → IsSound t
  Step-IsSound {s} h (pick i {m} {p} move) =
      let (mine, b, f) = Move-At s.shared i _ m p move (h.every i) h.bounded in
      record { every = moved-At s i m p h mine f; bounded = b }

  pub Reach-IsSound :
      {net : N} {client : Client} {s : System platform} → Reach platform net client s → IsSound s
  Reach-IsSound {net} {client} start = init-IsSound net client
  Reach-IsSound (later r step) = Step-IsSound (Reach-IsSound r) step
