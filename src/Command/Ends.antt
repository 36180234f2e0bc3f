-- ===== src/Command/Ends.antt =====
-- How a run ends: after a signal, and after a failure of the HTTP listener.
use hbs_queue.Command.{
  Host, Wake, signalled, server_ended, http_server, debug_server, register, answer, awake, drain,
  shut_down, start_up, serve, run,
}
use hbs_queue.Config.{BuildInfo, Config, load}
use hbs_queue.Db.Migrate.{Files, run_file, run_files, migrate_up, sort}
use hbs_queue.Db.Pool.{PoolDriver, tuned, ping_or_close, new_pool}
use hbs_queue.Db.River.{migrate_river, new_river_client}
use hbs_queue.Errors.{GoError, ok, err, wrap}
use hbs_queue.Prelude.{
  ◌≡◌, refl, sym, ap, ◌∙◌, String, Option, none, some, List, [], ◌∷◌, ◌++◌, map, Bytes, codes,
  Option-cases, inl, inr, utf8,
}
use hbs_queue.Task.Traces.{
  Writes, Writes-emit, Writes-pure, Writes-lift, Writes-check, Writes-update, Writes-perform,
  Writes-wrapping, Writes-bind, Writes-deferring, bind_of_ok,
}
use hbs_queue.Task.{
  Event, pool_opened, pool_closed, river_migrated, executed, river_started, http_listening,
  debug_listening, http_stopped, debug_stopped, river_stopped, emit, lift, update, wrapping,
  wrap_result, deferring, ◌>>=◌,
}

module _ {D : Type 0} (files : Files) (exec : Bytes → D → D × Option GoError) where
  run_file-Writes : (name : Bytes) → Writes (executed name ∷ []) (run_file files exec name)
  unfolding run_file
  run_file-Writes name = Writes-bind (Writes-wrapping _ (Writes-lift (files.read_file name))) λ sql.
      Writes-bind (Writes-wrapping _ (Writes-perform (exec sql)))
        λ done. Writes-emit (executed name)

  run_files-Writes : (names : List Bytes) → Writes (map executed names) (run_files files exec names)
  unfolding run_files
  run_files-Writes [] = Writes-pure tt
  run_files-Writes (name ∷ names) =
      Writes-bind (run_file-Writes name) (λ done. run_files-Writes names)

  migrate_up-Writes :
      {names : List Bytes}
      → files.glob ≡ ok names
      → Writes (map executed (sort names)) (migrate_up files exec)
  unfolding migrate_up lift wrapping
  migrate_up-Writes {names} e = record {
    at = λ d a h.
        let listed : (wrapping (codes "glob migrations: ") (lift files.glob) d).0 ≡ ok names =
          ap (wrap_result (codes "glob migrations: ")) e in
        let whole =
          bind_of_ok (wrapping (codes "glob migrations: ") (lift files.glob))
            (λ ns. run_files files exec (sort ns)) d listed in
        ap (λ x. x.1) whole
        ∙ (run_files-Writes (sort names)).at d a (sym (ap (λ x. x.0) whole) ∙ h);
  }

-- The trace of a start that succeeds, with the names of its migration files.
abbrev pub started : List Bytes → List Event
started names = river_migrated ∷ (map executed (sort names) ++ river_started ∷ [])

-- The trace of the listeners' start.
abbrev pub listening : Config → List Event
listening cfg = http_listening (http_server cfg).addr ∷ debug_listening (debug_server cfg).addr ∷ []

module _ {D : Type 0} (host : Host D) {names : List Bytes}
    (listed : host.files.glob ≡ ok names) where
  start_up-Writes : Writes (started names) (start_up host)
  unfolding start_up migrate_river new_river_client
  start_up-Writes =
      Writes-bind
        (Writes-wrapping _ (
          Writes-bind (Writes-wrapping _ (Writes-check host.river.new_migrator)) λ checked.
            Writes-bind (Writes-wrapping _ (Writes-update host.river.migrate))
              λ versions. Writes-emit river_migrated))
        λ migrated.
          Writes-bind (Writes-wrapping _ (migrate_up-Writes host.files host.exec listed)) λ up.
            Writes-bind
              (Writes-wrapping _ (
                Writes-wrapping _ (
                  Writes-check
                    (host.river.new_client (record { max_workers = 10; workers = register })))))
              λ made.
                Writes-bind (Writes-wrapping _ (Writes-perform host.river.start))
                  λ begun. Writes-emit river_started

  answer-Writes : (w : Wake) → Writes [] (answer {D = D} w)
  unfolding answer
  answer-Writes signalled = Writes-pure tt
  answer-Writes (server_ended none) = Writes-pure tt
  answer-Writes (server_ended (some e)) = Writes-lift (err (wrap (codes "http server: ") e))

  drain-Writes : (f : D → D) (e : Event) → Writes (e ∷ []) (drain f e)
  drain-Writes f e = record { at = λ d a h. refl }

  serve-Writes :
      (cfg : Config)
      → Writes
          (started names ++ (listening cfg ++ http_stopped ∷ debug_stopped ∷ river_stopped ∷ []))
          (serve host cfg)
  unfolding serve shut_down
  serve-Writes cfg = Writes-bind start_up-Writes λ begun.
      Writes-bind (Writes-emit (http_listening (http_server cfg).addr)) λ heard.
        Writes-bind (Writes-emit (debug_listening (debug_server cfg).addr)) λ heard_too.
          Writes-bind (Writes-update (awake host)) λ wake. Writes-bind (answer-Writes wake) λ told.
            Writes-bind (drain-Writes host.drain_http http_stopped) λ x.
              Writes-bind (Writes-emit debug_stopped)
                λ y. drain-Writes host.drain_river river_stopped

  ping_or_close-Writes : (driver : PoolDriver D) → Writes [] (ping_or_close driver)
  unfolding ping_or_close
  ping_or_close-Writes driver = record {
    at = λ d a h. elim (Option-cases (driver.ping d)) [
      | inl e ↦ rw (e, ping_or_close) refl
      | inr (x, e) ↦ absurd (let bad = rw (e, ping_or_close) at h in cc)
    ];
  }

  new_pool-Writes :
      (driver : PoolDriver D) (url : Bytes) → Writes (pool_opened ∷ []) (new_pool driver url)
  unfolding new_pool
  new_pool-Writes driver url =
      Writes-bind (Writes-wrapping _ (Writes-lift (driver.parse_config url))) λ config.
        Writes-bind (Writes-wrapping _ (Writes-check (driver.create (tuned config))))
          λ made. Writes-bind (Writes-emit pool_opened) λ opened. ping_or_close-Writes driver

  -- A run that returns nil has done all of it in this order: it opened the pool, migrated the queue's
  -- tables and then ran every migration file in sorted order, started the queue, and after that the
  -- listeners; at the end it stopped the HTTP listener, the debug listener and the queue, and closed
  -- the pool last.
  pub run_trace :
      (build : BuildInfo) (getenv : String → String) (d : D)
      → (run host build getenv d).0 ≡ ok tt
      → (run host build getenv d).1
        ≡ pool_opened
          ∷ ((started names
                ++ (listening (load build getenv)
                    ++ http_stopped ∷ debug_stopped ∷ river_stopped ∷ []))
              ++ pool_closed ∷ [])
  unfolding run
  run_trace build getenv d h =
      (Writes-bind
          (Writes-wrapping (codes "db pool: ")
            (new_pool-Writes host.pool (utf8 (load build getenv).database_url)))
          λ opened. Writes-deferring pool_closed (serve-Writes (load build getenv))).at
        d tt h

  -- What follows the start, when the HTTP listener fails.
  serve_failed :
      (cfg : Config) (d d' : D) {e : GoError}
      → (start_up host d).0 ≡ ok tt
      → host.wait (start_up host d).2 ≡ (d', server_ended (some e))
      → serve host cfg d
        ≡ (err (wrap (codes "http server: ") e), (start_up host d).1 ++ listening cfg, d')
  unfolding serve ◌>>=◌ answer emit update lift
  serve_failed cfg d d' begun ended = rw (begun, ◌>>=◌) (rw (ended, ◌>>=◌) refl)

  -- The state in which the service starts, with the pool open.
  abbrev pub opened : BuildInfo → (String → String) → D → D
  opened build getenv d = (new_pool host.pool (utf8 (load build getenv).database_url) d).2

  -- A failure of the HTTP listener ends the run of a service that had started at once, with that
  -- error: neither listener is stopped and nothing is drained, and the pool is closed while the queue,
  -- which is not stopped either, may still work on jobs.
  pub run_server_failed :
      (build : BuildInfo) (getenv : String → String) (d d' : D) {e : GoError}
      → (new_pool host.pool (utf8 (load build getenv).database_url) d).0 ≡ ok tt
      → (start_up host (opened build getenv d)).0 ≡ ok tt
      → host.wait (start_up host (opened build getenv d)).2 ≡ (d', server_ended (some e))
      → run host build getenv d ≡ (
        err (wrap (codes "http server: ") e),
        pool_opened ∷ ((started names ++ listening (load build getenv)) ++ pool_closed ∷ []),
        d',
      )
  unfolding run wrapping deferring ◌>>=◌
  run_server_failed build getenv d d' {e} made begun ended =
      let cfg = load build getenv in
      let url = utf8 cfg.database_url in
      let pool_trace = (new_pool-Writes host.pool url).at d tt made in
      let trace = start_up-Writes.at (opened build getenv d) tt begun in
      let served = serve_failed cfg (opened build getenv d) d' begun ended in
      rw (made, ◌>>=◌) (rw pool_trace (rw served (rw trace refl)))
