-- ===== src/Vcd/Shared/Safety.antt =====
-- What the mutex of a client gives to the goroutines that share it.
use hbs_queue.Prelude.{ℕ, suc, ◌<◌, ◌≤◌, ◌≡◌, ◌≢◌, some, arith, eq_iff}
use hbs_queue.Vcd.Client.{Platform, Client}
use hbs_queue.Vcd.Shared.{
  Shared, Pc, idle, checking, asking, answered, leaving, ready, replied, rejected, clearing,
  cleared, Move, System, Reach,
}
use hbs_queue.Vcd.Shared.Invariant.{At, Reach-IsSound}
use hbs_queue.Vcd.Shared.Mutex.{Inside, Inside-holder, Reach-IsOwned, next, rank}

-- A goroutine that getToken gave a token has one that is not empty.
abbrev pub HasToken : Pc → Type 0
HasToken idle = Unit {0}
HasToken (ready t) = t ≢ ""
HasToken _ = Unit {0}

At-HasToken : {N : Type 0} (s : Shared N) (i : ℕ) (p : Pc) → At s i p → HasToken p
At-HasToken s i idle h = tt
At-HasToken s i checking h = tt
At-HasToken s i asking h = tt
At-HasToken s i (answered _) h = tt
At-HasToken s i (leaving _) h = tt
At-HasToken s i (ready t) h = h
At-HasToken s i (replied _) h = tt
At-HasToken s i rejected h = tt
At-HasToken s i clearing h = tt
At-HasToken s i cleared h = tt

module _ {N : Type 0} (platform : Platform N) {net : N} {client : Client} where
  -- In every state that concurrent calls of one new client can reach, two goroutines between a Lock
  -- and its Unlock (in getToken with its login, or in clearToken) are the same one.
  pub holder_unique :
      (s : System platform) (i j : ℕ)
      → Reach platform net client s
      → Inside (s.pc i)
      → Inside (s.pc j)
      → i ≡ j
  holder_unique s i j r x y =
      let a = Inside-holder s.shared i (s.pc i) x ((Reach-IsSound platform r).every i) in
      let b = Inside-holder s.shared j (s.pc j) y ((Reach-IsSound platform r).every j) in
      ground arith

  -- In every state that concurrent calls of one new client can reach, the logins that gave a token
  -- are at most one more than the tokens that clearToken dropped, and no goroutine holds "" as the
  -- token that getToken returned.
  pub logins_bounded :
      (s : System platform)
      → Reach platform net client s
      → (s.shared.logins ≤ suc s.shared.clears) × ((i : ℕ) → HasToken (s.pc i))
  logins_bounded s r = (
    (let b = (Reach-IsSound platform r).bounded in ground (arith, eq_iff s.shared.client.token "")),
    λ i. At-HasToken s.shared i (s.pc i) ((Reach-IsSound platform r).every i),
  )

  -- In every state that concurrent calls of one new client can reach, the goroutine that holds the
  -- mutex can make its next step, whatever net/http answers, and that step has fewer steps left
  -- until the Unlock.
  pub unlocks :
      (s : System platform) (i : ℕ)
      → Reach platform net client s
      → s.shared.holder ≡ some i
      → (m : Shared N) × (p : Pc) × Move platform s.shared i (s.pc i) m p × (rank p < rank (s.pc i))
  unlocks s i r held =
      next platform s.shared i (s.pc i) (Reach-IsOwned platform r i held)
        ((Reach-IsSound platform r).every i)
