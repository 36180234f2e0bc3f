-- ===== src/Db/Migrate.antt =====
-- internal/db/migrate.go. The embedded files and the execution of a file are parameters.
pub mod Order
pub mod Rerun
use mathlib.Core.List.{foldr}
use hbs_queue.Errors.{GoError, Result}
use hbs_queue.Prelude.{
  Option, Bool, true, false, List, [], ◌∷◌, ◌++◌, Bytes, codes, if◌then◌else◌, ltb, ◌==◌,
}
use hbs_queue.Task.{Task, executed, pure, emit, lift, perform, wrapping, ◌>>◌, ◌>>=◌}

-- The order of Go's strings, by their bytes.
unfoldable pub le_bytes : Bytes → Bytes → Bool
le_bytes [] t = true
le_bytes (a ∷ s) [] = false
le_bytes (a ∷ s) (b ∷ t) =
    let rest = le_bytes s t in if ltb a b then true else if a == b then rest else false

unfoldable pub insert_name : Bytes → List Bytes → List Bytes
unfolding le_bytes
insert_name s [] = s ∷ []
insert_name s (t ∷ ts) =
    let rest = insert_name s ts in if le_bytes s t then s ∷ t ∷ ts else t ∷ rest

-- sort.Strings
unfoldable pub sort : List Bytes → List Bytes
unfolding insert_name
sort = foldr insert_name []

pub record Files : Type 0 where
  -- fs.Glob and fs.ReadFile on the embedded directory
  pub glob : Result (List Bytes)
  pub read_file : Bytes → Result Bytes

module _ {D : Type 0} (files : Files) (exec : Bytes → D → D × Option GoError) where
  unfoldable pub run_file : Bytes → Task D Unit
  run_file name = do
    sql ← wrapping (codes "read " ++ (name ++ codes ": ")) (lift (files.read_file name))
    wrapping (codes "exec " ++ (name ++ codes ": ")) (perform (exec sql))
    emit (executed name)

  -- The loop over the names.
  unfoldable pub run_files : List Bytes → Task D Unit
  run_files [] = pure tt
  run_files (name ∷ names) = run_file name >> run_files names

  unfoldable pub migrate_up : Task D Unit
  migrate_up = do
    names ← wrapping (codes "glob migrations: ") (lift files.glob)
    run_files (sort names)
