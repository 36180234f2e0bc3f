-- ===== src/Command.antt =====
-- cmd/hbsqueue/main.go: the life of the service. What the host answers is a parameter. The two
-- listeners run beside this code: their start is an event, and the end of the HTTP listener is one
-- of the things that the service waits for.
pub mod Bracket
pub mod Debug
pub mod Ends
use hbs_queue.Config.{BuildInfo, Config, load}
use hbs_queue.Db.Migrate.{Files, migrate_up}
use hbs_queue.Db.Pool.{PoolDriver, new_pool}
use hbs_queue.Db.River.{RiverDriver, migrate_river, new_river_client}
use hbs_queue.Errors.{GoError, Result, ok, err, wrap}
use hbs_queue.Prelude.{
  ℕ, ◌*◌, String, Option, none, some, List, [], ◌∷◌, Bytes, codes, if◌then◌else◌, str_eq, utf8,
}
use hbs_queue.Task.{
  Event, Task, pool_closed, river_started, http_listening, debug_listening, http_stopped,
  debug_stopped, river_stopped, pure, emit, lift, update, perform, wrapping, deferring, ◌>>◌, ◌>>=◌,
}
use hbs_queue.Vcd.Client.{Client, new}

-- What ends the wait: a signal, or the HTTP listener with its error, none for ErrServerClosed.
pub data Wake : Type 0 where
  signalled : Wake
  server_ended : Option GoError → Wake

pub record Host (D : Type 0) : Type 0 where
  pub pool : PoolDriver D
  pub river : RiverDriver D
  pub files : Files
  pub exec : Bytes → D → D × Option GoError
  -- the service at work, until it wakes
  pub wait : D → D × Wake
  -- what is finished while each part shuts down; an error of Shutdown or Stop is only logged
  pub drain_http : D → D
  pub drain_river : D → D

-- The address and the timeouts of the HTTP server, in nanoseconds; 0 where none is set.
pub record HttpServer : Type 0 where
  pub addr : Bytes
  pub read_header_timeout : ℕ
  pub read_timeout : ℕ
  pub write_timeout : ℕ
  pub idle_timeout : ℕ

abbrev second : ℕ
second = 1000000000

abbrev pub http_server : Config → HttpServer
http_server cfg = record {
  addr = b':' ∷ utf8 cfg.port;
  read_header_timeout = 10 * second;
  read_timeout = 30 * second;
  write_timeout = 30 * second;
  idle_timeout = 60 * second;
}

abbrev pub debug_server : Config → HttpServer
debug_server cfg = record {
  addr = b':' ∷ utf8 cfg.debug_port;
  read_header_timeout = 0;
  read_timeout = 0;
  write_timeout = 0;
  idle_timeout = 0;
}

-- The VCD client, where one is configured.
abbrev pub vcd_client : Config → Option Client
vcd_client cfg =
    if str_eq cfg.vcd_base_url ""
    then none
    else some (
        new (utf8 cfg.vcd_base_url) (utf8 cfg.vcd_version) (utf8 cfg.vcd_user)
          (utf8 cfg.vcd_password) (utf8 cfg.vcd_org))

-- internal/jobs/workers.go, Register: the kinds that have a worker.
abbrev pub register : List String
register = "onboard_org" ∷ []

-- The handler of the log: JSON in production, else text with the debug level.
pub data Logging : Type 0 where
  json_info text_debug : Logging

abbrev pub logging : Config → Logging
logging cfg = if str_eq cfg.env "prod" then json_info else text_debug

module _ {D : Type 0} where
  abbrev pub drain : (D → D) → Event → Task D Unit
  drain f e d = (ok tt, e ∷ [], f d)

  -- The select of run.
  unfoldable pub answer : Wake → Task D Unit
  answer signalled = pure tt
  answer (server_ended none) = pure tt
  answer (server_ended (some e)) = lift (err (wrap (codes "http server: ") e))

module _ {D : Type 0} (host : Host D) where
  abbrev pub awake : D → D × Result Wake
  awake d = let (d', w) = host.wait d in (d', ok w)

  unfoldable pub shut_down : Task D Unit
  shut_down = do
    drain host.drain_http http_stopped
    emit debug_stopped
    drain host.drain_river river_stopped

  unfoldable pub start_up : Task D Unit
  start_up = do
    wrapping (codes "river migrations: ") (migrate_river host.river)
    wrapping (codes "app migrations: ") (migrate_up host.files host.exec)
    wrapping (codes "river client: ") (new_river_client host.river register)
    wrapping (codes "river start: ") (perform host.river.start)
    emit river_started

  -- From the open pool on.
  unfoldable pub serve : Config → Task D Unit
  serve cfg = do
    start_up
    emit (http_listening (http_server cfg).addr)
    emit (debug_listening (debug_server cfg).addr)
    wake ← update awake
    answer wake
    shut_down

  unfoldable pub run : BuildInfo → (String → String) → Task D Unit
  run build getenv =
      wrapping (codes "db pool: ") (new_pool host.pool (utf8 (load build getenv).database_url))
      >> deferring pool_closed (serve (load build getenv))

  -- The exit status, and the error that is printed on standard error.
  unfoldable pub main : BuildInfo → (String → String) → D → ℕ × Option GoError
  unfolding run
  main build getenv d = elim (run build getenv d).0 [ ok done ↦ (0, none) | err e ↦ (1, some e) ]
