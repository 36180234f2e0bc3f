-- ===== src/Task.antt =====
-- The calls of the start and the end of the service (cmd/hbsqueue/main.go, internal/db): each may
-- change a database in state `D`, leaves a trace of events, and may fail, which ends the chain that
-- it stands in, as `if err != nil { return err }` does.
pub mod Traces
use hbs_queue.Errors.{GoError, Result, ok, err, wrap}
use hbs_queue.Prelude.{Option, none, some, List, [], ◌∷◌, ◌++◌, Bytes}

pub data Event : Type 0 where
  pool_opened pool_closed : Event
  river_migrated : Event
  executed : (name : Bytes) → Event
  river_started : Event
  http_listening : (address : Bytes) → Event
  debug_listening : (address : Bytes) → Event
  http_stopped debug_stopped river_stopped : Event

abbrev pub Task : Type 0 → Type 0 → Type 0
Task D A = D → Result A × List Event × D

abbrev pub wrap_result : {A : Type 0} → Bytes → Result A → Result A
wrap_result prefix (ok a) = ok a
wrap_result prefix (err e) = err (wrap prefix e)

module _ {D : Type 0} where
  unfoldable pub pure : {A : Type 0} → A → Task D A
  pure a d = (ok a, [], d)

  unfoldable pub emit : Event → Task D Unit
  emit e d = (ok tt, e ∷ [], d)

  unfoldable pub lift : {A : Type 0} → Result A → Task D A
  lift r d = (r, [], d)

  -- The error of a call, none for nil.
  unfoldable pub check : Option GoError → Task D Unit
  check none d = (ok tt, [], d)
  check (some e) d = (err e, [], d)

  -- A call that changes the database and returns a value or an error.
  unfoldable pub update : {A : Type 0} → (D → D × Result A) → Task D A
  update call d = let (d', r) = call d in (r, [], d')

  -- The same for a call that returns an error only.
  unfoldable pub perform : (D → D × Option GoError) → Task D Unit
  unfolding check
  perform call d = let (d', failed) = call d in check failed d'

  -- fmt.Errorf(prefix + "%w", err)
  unfoldable pub wrapping : {A : Type 0} → Bytes → Task D A → Task D A
  wrapping prefix m d = let (r, trace, d') = m d in (wrap_result prefix r, trace, d')

  abbrev continue : {A B : Type 0} → Result A → List Event → (A → Task D B) → Task D B
  continue (err e) trace f d = (err e, trace, d)
  continue (ok a) trace f d = let (r, more, d') = f a d in (r, trace ++ more, d')

  infixl 10 ◌>>=◌ ◌>>◌
  -- opening this opens the other tasks too
  unfoldable pub ◌>>=◌ : {A B : Type 0} → Task D A → (A → Task D B) → Task D B
  unfolding pure emit lift check update perform wrapping
  ◌>>=◌ m f d = let (r, trace, d') = m d in continue r trace f d'

  abbrev pub ◌>>◌ : {A B : Type 0} → Task D A → Task D B → Task D B
  m >> n = m >>= λ _. n

  -- A deferred call, which runs whatever the task returns.
  unfoldable pub deferring : {A : Type 0} → Event → Task D A → Task D A
  deferring e m d = let (r, trace, d') = m d in (r, trace ++ e ∷ [], d')
