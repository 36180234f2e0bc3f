-- ===== src/Db/Migrate/Rerun.antt =====
-- Running the migrations again.
use mathlib.Core.List.Memᴰ.{head, tail}
use mathlib.Core.List.{Memᴰ}
use hbs_queue.Db.Migrate.{Files, run_file, run_files, migrate_up, sort}
use hbs_queue.Errors.{GoError, ok, Result-cases}
use hbs_queue.Prelude.{
  ◌≡◌, refl, sym, ap, subst, ◌∙◌, inl, inr, Option, none, List, [], ◌∷◌, Bytes, codes, All,
  Option-cases,
}
use hbs_queue.Task.{Task, emit, check, lift, perform, pure, wrapping, ◌>>=◌}
use hbs_queue.Task.Traces.{bind-ok, bind_of_ok}

-- The statements that MigrateUp executes: the contents of the files it lists.
abbrev pub Migration : Files → Bytes → Type 0
Migration files sql =
    (names : List Bytes) × (name : Bytes) × (files.glob ≡ ok names)
    × Memᴰ name (sort names)
    × (files.read_file name ≡ ok sql)

-- What "IF NOT EXISTS" in the listed files gives: a statement of them that succeeded is applied,
-- stays so while others of them are executed, and where it is applied, to execute it succeeds and
-- changes nothing. Nothing is asked of any other statement.
pub record IsIdempotent {D : Type 0} (files : Files) (exec : Bytes → D → D × Option GoError)
    : Type 1 where
  pub Applied : Bytes → D → Type 0
  pub applies :
      (sql : Bytes) (d : D)
      → Migration files sql
      → (exec sql d).1 ≡ none
      → Applied sql (exec sql d).0
  pub stays :
      (sql other : Bytes) (d : D)
      → Migration files sql
      → Migration files other
      → (exec other d).1 ≡ none
      → Applied sql d
      → Applied sql (exec other d).0
  pub again : (sql : Bytes) (d : D) → Migration files sql → Applied sql d → exec sql d ≡ (d, none)

-- The names are of files whose statements are executed.
abbrev Listed : Files → List Bytes → Type 0
Listed files names =
    (name : Bytes) (sql : Bytes)
    → Memᴰ name names
    → files.read_file name ≡ ok sql
    → Migration files sql

module _ {D : Type 0} (files : Files) (exec : Bytes → D → D × Option GoError)
    (laws : IsIdempotent files exec) where
  -- The file can be read, and its statement is applied.
  abbrev IsDone : D → Bytes → Type 0
  IsDone d name =
      (sql : Bytes) × (files.read_file name ≡ ok sql) × Migration files sql × laws.Applied sql d

  run_file_runs :
      (name : Bytes) (d : D)
      → (run_file files exec name d).0 ≡ ok tt
      → (sql : Bytes) × (files.read_file name ≡ ok sql)
        × ((exec sql d).1 ≡ none)
        × ((run_file files exec name d).2 ≡ (exec sql d).0)
  unfolding run_file ◌>>=◌ wrapping lift perform check emit
  run_file_runs name d h = elim (Result-cases (files.read_file name)) [
    | inr (x, e) ↦ absurd (let bad = rw (e, ◌>>=◌) at h in cc)
    | inl (sql, e) ↦ elim (Option-cases (exec sql d).1) [
      | inr (x, failed) ↦ absurd (let bad = rw (failed, check) at (rw (e, ◌>>=◌) at h) in cc)
      | inl fine ↦ (sql, e, fine, rw (e, ◌>>=◌) (rw (fine, check) refl))
    ]
  ]

  run_file_again :
      (name : Bytes) (d : D)
      → IsDone d name
      → ((run_file files exec name d).0 ≡ ok tt) × ((run_file files exec name d).2 ≡ d)
  unfolding run_file ◌>>=◌ wrapping lift perform check emit
  run_file_again name d (sql, e, known, applied) =
      rw (e, ◌>>=◌) (rw (laws.again sql d known applied, ◌>>=◌) (refl, refl))

  run_files_keep :
      (names : List Bytes) (d : D) (sql : Bytes)
      → Listed files names
      → Migration files sql
      → (run_files files exec names d).0 ≡ ok tt
      → laws.Applied sql d
      → laws.Applied sql (run_files files exec names d).2
  unfolding run_files pure
  run_files_keep [] d sql all known h applied = applied
  run_files_keep (name ∷ names) d sql all known h applied =
      let (_, first, rest, last) =
        bind-ok (run_file files exec name) (λ done. run_files files exec names) d h in
      let (other, e, fine, left) = run_file_runs name d first in
      let after =
        subst (laws.Applied sql) (sym left)
          (laws.stays sql other d known (all name other (head refl) e) fine applied) in
      subst (laws.Applied sql) (sym last)
        (run_files_keep names _ sql (λ n q m. all n q (tail m)) known rest after)

  run_files-IsDone :
      (names : List Bytes) (d : D)
      → Listed files names
      → (run_files files exec names d).0 ≡ ok tt
      → All (IsDone (run_files files exec names d).2) names
  unfolding run_files
  run_files-IsDone [] d all h = tt
  run_files-IsDone (name ∷ names) d all h =
      let (_, first, rest, last) =
        bind-ok (run_file files exec name) (λ done. run_files files exec names) d h in
      let (sql, e, fine, left) = run_file_runs name d first in
      let known = all name sql (head refl) e in
      let others : Listed files names = λ n q m. all n q (tail m) in
      let after = subst (laws.Applied sql) (sym left) (laws.applies sql d known fine) in
      subst (λ x. All (IsDone x) (name ∷ names)) (sym last)
        (
          (sql, e, known, run_files_keep names _ sql others known rest after),
          run_files-IsDone names _ others rest,
        )

  run_files_again :
      (names : List Bytes) (d : D)
      → All (IsDone d) names
      → ((run_files files exec names d).0 ≡ ok tt) × ((run_files files exec names d).2 ≡ d)
  unfolding run_files pure
  run_files_again [] d h = (refl, refl)
  run_files_again (name ∷ names) d (done, more) =
      let (fine, same) = run_file_again name d done in
      let whole = bind_of_ok (run_file files exec name) (λ x. run_files files exec names) d fine in
      rw whole (rw same (run_files_again names d more))

  listed_ok :
      (names : List Bytes) (d : D)
      → (wrapping (codes "glob migrations: ") (lift files.glob) d).0 ≡ ok names
      → files.glob ≡ ok names
  unfolding wrapping lift
  listed_ok names d h = elim (Result-cases files.glob) [
    | inr (x, e) ↦ absurd (let bad = rw (e, wrapping) at h in cc)
    | inl (found, e) ↦ e ∙ rw (e, wrapping) at h
  ]

  -- Start after start: where MigrateUp succeeded and the statements of the files that it lists are
  -- idempotent, running it again succeeds and leaves the database as it is.
  pub migrate_up_again :
      (d : D)
      → (migrate_up files exec d).0 ≡ ok tt
      → ((migrate_up files exec (migrate_up files exec d).2).0 ≡ ok tt)
        × ((migrate_up files exec (migrate_up files exec d).2).2 ≡ (migrate_up files exec d).2)
  unfolding migrate_up lift wrapping
  migrate_up_again d h =
      let (names, listed, ran, left) = bind-ok glob rest d h in
      let whole = bind_of_ok glob rest (migrate_up files exec d).2 listed in
      let found : files.glob ≡ ok names = listed_ok names d listed in
      let (fine, same) = run_files_again (sort names) (migrate_up files exec d).2 (
        subst (λ x. All (IsDone x) (sort names)) (sym left)
          (run_files-IsDone (sort names) d (λ name sql m e. (names, name, found, m, e)) ran)) in
      (ap (λ x. x.0) whole ∙ fine, ap (λ x. x.2) whole ∙ same)
    where
      glob : Task D (List Bytes)
      glob = wrapping (codes "glob migrations: ") (lift files.glob)

      rest : List Bytes → Task D (Unit {0})
      rest names = run_files files exec (sort names)
