-- ===== src/Db/River.antt =====
-- internal/db/river.go. The queue library is a parameter.
use hbs_queue.Errors.{GoError, Result}
use hbs_queue.Prelude.{ℕ, String, Option, List, codes}
use hbs_queue.Task.{Task, river_migrated, emit, check, update, wrapping, ◌>>◌}

pub record RiverConfig : Type 0 where
  -- the workers of the default queue, and the kinds of job that have a worker
  pub max_workers : ℕ
  pub workers : List String

pub record RiverDriver (D : Type 0) : Type 0 where
  pub new_migrator : Option GoError
  -- Migrate, which returns the versions that it applied
  pub migrate : D → D × Result (List ℕ)
  pub new_client : RiverConfig → Option GoError
  pub start : D → D × Option GoError

module _ {D : Type 0} (driver : RiverDriver D) where
  unfoldable pub migrate_river : Task D Unit
  migrate_river = do
    wrapping (codes "create river migrator: ") (check driver.new_migrator)
    wrapping (codes "river migrate: ") (update driver.migrate)
    emit river_migrated

  unfoldable pub new_river_client : List String → Task D Unit
  new_river_client workers =
      wrapping (codes "create river client: ")
        (check (driver.new_client (record { max_workers = 10; workers = workers })))
