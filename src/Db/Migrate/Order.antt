-- ===== src/Db/Migrate/Order.antt =====
-- The order in which the migration files run does not depend on how the directory is listed.
use mathlib.Core.List.{Perm}
use mathlib.Core.List.Perm
use hbs_queue.Db.Migrate.{le_bytes, insert_name, sort, run_file, run_files, migrate_up}
use hbs_queue.Errors.{GoError, Result, ok}
use hbs_queue.Prelude.{◌≡◌, refl, true, false, Option, List, [], ◌∷◌, Bytes, arith}
use hbs_queue.Task.{lift, wrapping, ◌>>=◌}

le_bytes_total : (s t : Bytes) → le_bytes s t ≡ false → le_bytes t s ≡ true
unfolding le_bytes
le_bytes_total [] t h = ground arith
le_bytes_total (a ∷ s) [] h = refl
le_bytes_total (a ∷ s) (b ∷ t) h = ground (arith, le_bytes_total s t)

le_bytes_antisymm : (s t : Bytes) → le_bytes s t ≡ true → le_bytes t s ≡ true → s ≡ t
unfolding le_bytes
le_bytes_antisymm [] [] h k = refl
le_bytes_antisymm [] (b ∷ t) h k = ground arith
le_bytes_antisymm (a ∷ s) [] h k = ground arith
le_bytes_antisymm (a ∷ s) (b ∷ t) h k = ground (arith, le_bytes_antisymm s t)

le_bytes_trans : (s t u : Bytes) → le_bytes s t ≡ true → le_bytes t u ≡ true → le_bytes s u ≡ true
unfolding le_bytes
le_bytes_trans [] t u h k = refl
le_bytes_trans (a ∷ s) [] u h k = ground arith
le_bytes_trans (a ∷ s) (b ∷ t) [] h k = ground arith
le_bytes_trans (a ∷ s) (b ∷ t) (c ∷ u) h k = ground (arith, le_bytes_trans s t u)

-- Two names may be inserted in either order.
insert_name_comm :
    (s t : Bytes) (us : List Bytes)
    → insert_name s (insert_name t us) ≡ insert_name t (insert_name s us)
unfolding insert_name
insert_name_comm s t [] = ground (arith, le_bytes_total s t, le_bytes_antisymm s t)
insert_name_comm s t (u ∷ us) = ground (
  arith,
  insert_name_comm s t us,
  le_bytes_total s t,
  le_bytes_antisymm s t,
  le_bytes_trans s t u,
  le_bytes_trans t s u,
  le_bytes_total s u,
  le_bytes_total t u,
  le_bytes_trans u s t,
)

sort-perm : {l r : List Bytes} → Perm l r → sort l ≡ sort r
unfolding sort
sort-perm p = Perm.foldr-eq (hlevel) insert_name insert_name_comm p []

module _ {D : Type 0} (read_file : Bytes → Result Bytes)
    (exec : Bytes → D → D × Option GoError) where
  -- However the embedded directory lists its migration files, MigrateUp does the same: the same
  -- files in the same order, with the same result and the same effect.
  pub migrate_up-perm :
      {names listed : List Bytes}
      → Perm names listed
      → (d : D)
      → migrate_up (record { glob = ok names; read_file = read_file }) exec d
        ≡ migrate_up (record { glob = ok listed; read_file = read_file }) exec d
  unfolding migrate_up ◌>>=◌ lift wrapping run_files run_file
  migrate_up-perm p d = rw (sort-perm p) refl
