-- ===== src/Command/Bracket.antt =====
-- The pool is open around all else.
use hbs_queue.Command.{
  Host, drain, answer, signalled, server_ended, shut_down, start_up, serve, run, Wake,
}
use hbs_queue.Config.{BuildInfo, Config, load}
use hbs_queue.Db.Migrate.{Files, run_file, run_files, migrate_up}
use hbs_queue.Db.Pool.{PoolDriver, tuned, ping_or_close, new_pool}
use hbs_queue.Db.River.{migrate_river, new_river_client}
use hbs_queue.Errors.{GoError, Result, ok, err, Result-cases, wrap}
use hbs_queue.Prelude.{
  ◌≡◌, refl, ◌⊎◌, inl, inr, Bool, true, false, String, Option, none, some, List, [], ◌∷◌, ◌++◌,
  Bytes, All, Option-cases, codes, utf8,
}
use hbs_queue.Task.Traces.{
  Emits, Emits-pure, Emits-emit, Emits-lift, Emits-check, Emits-update, Emits-perform,
  Emits-wrapping, Emits-bind,
}
use hbs_queue.Task.{wrapping, deferring, ◌>>=◌, Event, pool_opened, pool_closed}

-- Every event but the opening and the closing of the pool.
abbrev pub inside : Event → Bool
inside pool_opened = false
inside pool_closed = false
inside _ = true

abbrev pub IsInside : Event → Type 0
IsInside e = inside e ≡ true

ruleset emits_rules = (
  Emits-pure, Emits-emit, Emits-lift, Emits-check, Emits-update, Emits-perform, Emits-wrapping,
  Emits-bind,
)

module _ {D : Type 0} where
  drain-Emits : (f : D → D) (e : Event) → IsInside e → Emits IsInside (drain f e)
  drain-Emits f e h = record { at = λ d. (h, tt) }

  answer-Emits : (w : Wake) → Emits IsInside (answer {D = D} w)
  unfolding answer
  answer-Emits signalled = Emits-pure IsInside tt
  answer-Emits (server_ended none) = Emits-pure IsInside tt
  answer-Emits (server_ended (some e)) = Emits-lift IsInside _

  run_files-Emits :
      (files : Files) (exec : Bytes → D → D × Option GoError) (names : List Bytes)
      → Emits IsInside (run_files files exec names)
  unfolding run_files run_file
  run_files-Emits files exec [] = search emits_rules
  run_files-Emits files exec (name ∷ names) =
      Emits-bind IsInside (run_file files exec name) _ (search emits_rules)
        (λ done. run_files-Emits files exec names)

module _ {D : Type 0} (host : Host D) where
  start_up-Emits : Emits IsInside (start_up host)
  unfolding start_up migrate_river migrate_up new_river_client
  start_up-Emits = search (emits_rules, run_files-Emits) depth 12

  shut_down-Emits : Emits IsInside (shut_down host)
  unfolding shut_down
  shut_down-Emits = search (emits_rules, drain-Emits)

  serve-Emits : (cfg : Config) → Emits IsInside (serve host cfg)
  unfolding serve
  serve-Emits cfg = search (emits_rules, answer-Emits, start_up-Emits, shut_down-Emits) depth 12

module _ {D : Type 0} (driver : PoolDriver D) (url : Bytes) (d : D) where
  -- A new pool answers, or was never made, or is closed at once.
  abbrev PoolEnds : Result (Unit {0}) × List Event × D → Type 0
  PoolEnds r =
      (r ≡ (ok tt, pool_opened ∷ [], d))
      ⊎ (((e : GoError) × (r ≡ (err e, [], d)))
          ⊎ ((e : GoError) × (r ≡ (err e, pool_opened ∷ pool_closed ∷ [], d))))

  new_pool_ends : PoolEnds (new_pool driver url d)
  unfolding new_pool ping_or_close ◌>>=◌
  new_pool_ends = elim (Result-cases (driver.parse_config url)) [
    | inr (e, a) ↦ inr (inl (wrap (codes "parse database url: ") e, rw (a, new_pool) refl))
    | inl (config, a) ↦ elim (Option-cases (driver.create (tuned config))) [
      | inr (e, b) ↦
          inr (inl (wrap (codes "create pool: ") e, rw (a, new_pool) (rw (b, new_pool) refl)))
      | inl b ↦ elim (Option-cases (driver.ping d)) [
        | inr (e, c) ↦ inr (
            inr (
              wrap (codes "ping database: ") e,
              rw (a, new_pool) (rw (b, new_pool) (rw (c, ping_or_close) refl)),
            ))
        | inl c ↦ inl (rw (a, new_pool) (rw (b, new_pool) (rw (c, ping_or_close) refl)))
      ]
    ]
  ]

module _ {D : Type 0} (host : Host D) where
  -- Whatever fails, the pool is closed: a run opens no pool and leaves no trace, or it opens the
  -- pool first of all, closes it last of all, and neither opens nor closes one in between.
  pub run_brackets :
      (build : BuildInfo) (getenv : String → String) (d : D)
      → ((run host build getenv d).1 ≡ [])
        ⊎ ((inner : List Event) × ((run host build getenv d).1
              ≡ pool_opened ∷ (inner ++ pool_closed ∷ []))
            × All IsInside inner)
  unfolding run wrapping deferring ◌>>=◌
  run_brackets build getenv d =
      let cfg = load build getenv in
      elim (new_pool_ends host.pool (utf8 cfg.database_url) d) [
        | inl e ↦ inr ((serve host cfg d).1, rw e refl, (serve-Emits host cfg).at d)
        | inr (inl (x, e)) ↦ inl (rw e refl)
        | inr (inr (x, e)) ↦ inr ([], rw e refl, tt)
      ]
