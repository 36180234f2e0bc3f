-- ===== src/Db/Pool.antt =====
-- internal/db/db.go. The driver is a parameter.
use hbs_queue.Errors.{GoError, Result, err, ok, wrap}
use hbs_queue.Prelude.{ℕ, ◌*◌, Option, none, some, [], ◌∷◌, Bytes, codes}
use hbs_queue.Task.{Task, pool_opened, pool_closed, emit, lift, check, wrapping, ◌>>=◌, ◌>>◌}

-- The settings that the program chooses, in nanoseconds where they are times.
pub record PoolConfig : Type 0 where
  pub url : Bytes
  pub max_conns : ℕ
  pub min_conns : ℕ
  pub max_conn_idle_time : ℕ
  pub max_conn_lifetime : ℕ
  pub health_check_period : ℕ

abbrev second : ℕ
second = 1000000000

abbrev pub tuned : PoolConfig → PoolConfig
tuned c = record c {
  max_conns = 10;
  min_conns = 2;
  max_conn_idle_time = 5 * 60 * second;
  max_conn_lifetime = 30 * 60 * second;
  health_check_period = 30 * second;
}

pub record PoolDriver (D : Type 0) : Type 0 where
  pub parse_config : Bytes → Result PoolConfig
  pub create : PoolConfig → Option GoError
  pub ping : D → Option GoError

module _ {D : Type 0} (driver : PoolDriver D) where
  -- A pool that does not answer is closed again.
  unfoldable pub ping_or_close : Task D Unit
  ping_or_close d = elim (driver.ping d) [
    | none ↦ (ok tt, [], d)
    | some e ↦ (err (wrap (codes "ping database: ") e), pool_closed ∷ [], d)
  ]

  unfoldable pub new_pool : Bytes → Task D Unit
  new_pool database_url = do
    config ← wrapping (codes "parse database url: ") (lift (driver.parse_config database_url))
    wrapping (codes "create pool: ") (check (driver.create (tuned config)))
    emit pool_opened
    ping_or_close
