-- ===== src/Scenarios/Command.antt =====
-- A host with two migration files, in which every part starts at once.
use mathlib.Core.List.Perm
use hbs_queue.Command.Bracket.{IsInside, run_brackets}
use hbs_queue.Command.Debug.{Sample, integer, publish_all, uint64, float64, other, runtime_metrics}
use hbs_queue.Command.Ends.{started, listening, run_trace, run_server_failed}
use hbs_queue.Command.{Host, Wake, signalled, server_ended, start_up, shut_down, answer, serve, run}
use hbs_queue.Config.{BuildInfo, load}
use hbs_queue.Db.Migrate.Order.{migrate_up-perm}
use hbs_queue.Db.Migrate.Rerun.{IsIdempotent, migrate_up_again}
use hbs_queue.Db.Migrate.{Files, run_file, run_files, sort, migrate_up}
use hbs_queue.Db.Pool.{PoolDriver, ping_or_close, new_pool}
use hbs_queue.Db.River.{RiverDriver, migrate_river, new_river_client}
use hbs_queue.Errors.{GoError, Result, ok, err, wrap, message}
use hbs_queue.Prelude.{
  ℕ, ◌≡◌, refl, ◌⊎◌, Bool, true, false, String, Option, none, some, List, [], ◌∷◌, ◌++◌, Bytes, All,
  codes, arith,
}
use hbs_queue.Task.{
  Event, pool_opened, pool_closed, http_stopped, debug_stopped, river_stopped, pure, emit, lift,
  check, update, perform, wrapping, deferring, ◌>>=◌,
}

abbrev reads : Bytes → Result Bytes
reads name = ok name

-- Whether the tables are there.
abbrev creates_tables : Bytes → Bool → Bool × Option GoError
creates_tables sql d = (true, none)

abbrev first_file : Bytes
first_file = codes "001.sql"

abbrev second_file : Bytes
second_file = codes "002.sql"

abbrev files : Files
files = record { glob = ok (second_file ∷ first_file ∷ []); read_file = reads }

migrate_up-perm_example :
    migrate_up files creates_tables false
    ≡ migrate_up
        (record { glob = ok (first_file ∷ second_file ∷ []); read_file = reads })
        creates_tables
        false
migrate_up-perm_example =
    migrate_up-perm reads creates_tables {names = second_file ∷ first_file ∷ []}
      {listed = first_file ∷ second_file ∷ []} (Perm.swap first_file second_file []) false

creates_tables-IsIdempotent : IsIdempotent files creates_tables
creates_tables-IsIdempotent = record {
  Applied = λ sql d. d ≡ true;
  applies = λ sql d known h. refl;
  stays = λ sql other d known also h applied. refl;
  again = λ sql d known applied. ground arith;
}

migrate_up_again_example :
    ((migrate_up files creates_tables (migrate_up files creates_tables false).2).0 ≡ ok tt)
    × ((migrate_up files creates_tables (migrate_up files creates_tables false).2).2
        ≡ (migrate_up files creates_tables false).2)
unfolding migrate_up run_files run_file ◌>>=◌ wrapping lift perform check emit pure sort
migrate_up_again_example =
    migrate_up_again files creates_tables creates_tables-IsIdempotent false refl

abbrev driver : PoolDriver Bool
driver = record {
  parse_config = λ url. ok (record {
    url = url;
    max_conns = 4;
    min_conns = 0;
    max_conn_idle_time = 0;
    max_conn_lifetime = 0;
    health_check_period = 0;
  });
  create = λ config. none;
  ping = λ d. none;
}

abbrev queue : RiverDriver Bool
queue = record {
  new_migrator = none;
  migrate = λ d. (d, ok []);
  new_client = λ config. none;
  start = λ d. (d, none);
}

abbrev host : Wake → Host Bool
host wake = record {
  pool = driver;
  river = queue;
  files = files;
  exec = creates_tables;
  wait = λ d. (d, wake);
  drain_http = λ d. d;
  drain_river = λ d. d;
}

abbrev build : BuildInfo
build = record { version = "dev"; commit = "none"; build_time = "unknown" }

abbrev unset : String → String
unset key = ""

run_brackets_example :
    ((run (host signalled) build unset false).1 ≡ [])
    ⊎ ((inner : List Event) × ((run (host signalled) build unset false).1
          ≡ pool_opened ∷ (inner ++ pool_closed ∷ []))
        × All IsInside inner)
run_brackets_example = run_brackets (host signalled) build unset false

abbrev names : List Bytes
names = second_file ∷ first_file ∷ []

listed : (wake : Wake) → (host wake).files.glob ≡ ok names
listed wake = refl

run_trace_example :
    (run (host signalled) build unset false).1
    ≡ pool_opened
      ∷ ((started names
            ++ (listening (load build unset) ++ http_stopped ∷ debug_stopped ∷ river_stopped ∷ []))
          ++ pool_closed ∷ [])
unfolding run serve start_up shut_down answer new_pool ping_or_close migrate_river new_river_client
    migrate_up run_files run_file sort pure emit lift check update perform wrapping deferring ◌>>=◌
run_trace_example =
    run_trace (host signalled) {names = names} (listed signalled) build unset false refl

abbrev broken : Wake
broken = server_ended (some (message (codes "address in use")))

run_server_failed_example : run (host broken) build unset false ≡ (
  err (wrap (codes "http server: ") (message (codes "address in use"))),
  pool_opened ∷ ((started names ++ listening (load build unset)) ++ pool_closed ∷ []),
  true,
)
unfolding start_up new_pool ping_or_close migrate_river new_river_client migrate_up run_files
    run_file sort pure emit lift check update perform wrapping ◌>>=◌
run_server_failed_example =
    run_server_failed (host broken) {names = names} (listed broken) build unset false true
      {e = message (codes "address in use")} refl refl refl

abbrev samples : List (Sample ℕ)
samples =
    record { name = "/gc/heap/goal:bytes"; value = uint64 4194304 }
    ∷ record { name = "/sched/latencies:seconds"; value = other }
    ∷ record { name = "/cpu/user:cpu-seconds"; value = float64 12 }
    ∷ []

-- The histogram is left out.
metrics_published :
    (runtime_metrics samples "/gc/heap/goal:bytes" ≡ some (integer 4194304))
    × (runtime_metrics samples "/sched/latencies:seconds" ≡ none)
unfolding runtime_metrics publish_all
metrics_published = (refl, refl)
