-- ===== src/Migrations/Idle.antt =====
-- A run of the migrations that finds every file recorded.
use sense_grid.Common.{
  ◌≡◌, refl, ap, ◌∙◌, true, none, some, Option, List, [], ◌∷◌, text_Eq, Text, contains, All,
}
use sense_grid.Migrations.Run.{
  Error, Database, Files, Schema, migrate_all, turn, run, base, sort_strings,
}

module _ {W : Type 0} (db : Database W) (files : Files) where
  turn-skipped :
      (applied : List Text) (path : Text) (s : Schema W)
      → contains (base path) applied ≡ true
      → turn db files applied path s ≡ (none, s)
  unfolding turn
  turn-skipped applied path s there = rw there refl

  migrate_all-skipped :
      (applied : List Text) (path : Text) (paths : List Text) (s : Schema W)
      → turn db files applied path s ≡ (none, s)
      → migrate_all db files applied (path ∷ paths) s ≡ migrate_all db files applied paths s
  unfolding migrate_all
  migrate_all-skipped applied path paths s e =
      rw (ap (λ (x : Option Error × Schema W). x.0) e, migrate_all)
        (ap (λ (x : Option Error × Schema W). migrate_all db files applied paths x.1) e)

  migrate_all-done :
      (applied paths : List Text) (s : Schema W)
      → All (λ path. contains (base path) applied ≡ true) paths
      → migrate_all db files applied paths s ≡ (none, s)
  unfolding migrate_all
  migrate_all-done applied [] s all = refl
  migrate_all-done applied (path ∷ paths) s (there, all) =
      migrate_all-skipped applied path paths s (turn-skipped applied path s there)
      ∙ migrate_all-done applied paths s all

  -- Where each file is recorded and the two first statements are answered: Run executes no file and
  -- records none.
  pub run_idle :
      (s : Schema W) (paths : List Text)
      → files.glob ≡ some paths
      → All (λ path. contains (base path) s.versions ≡ true) (sort_strings paths)
      → (db.create_table s.world).0 ≡ none
      → (db.select_versions (db.create_table s.world).1).0 ≡ none
      → run db files s
        ≡ (none, record s { world = (db.select_versions (db.create_table s.world).1).1 })
  unfolding run
  run_idle s paths listed all prepared answered =
      rw prepared (rw answered (rw listed (migrate_all-done s.versions (sort_strings paths) _ all)))
