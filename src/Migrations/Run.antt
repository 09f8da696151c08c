-- ===== src/Migrations/Run.antt =====
-- Run of internal/migrations/migrations.go. The database is a parameter, but for the rows of
-- schema_migrations, whose primary key is the version.
use sense_grid.Common.{
  Bool, true, false, not, ◌||◌, Option, none, some, List, [], ◌∷◌, ◌++◌, if◌then◌else◌, nat_eq, ltb,
  ◌==◌, text_Eq, Text, codes, contains,
}
use sense_grid.Migrations.Split.{split_statements, has_prefix, trim_space}

-- A failure that PostgreSQL names by a code, or another one.
pub data Failure : Type 0 where
  pg_error : Text → Failure
  other_failure : Failure

pub data Error : Type 0 where
  preparing reading_versions listing : Error
  reading_file applying recording : Text → Error

unfoldable pub race_ok : Text → Bool
race_ok code = code == codes "42P07" || (code == codes "42710" || code == codes "23505")

unfoldable pub is_concurrent_apply_race : Failure → Bool
unfolding race_ok
is_concurrent_apply_race (pg_error code) = race_ok code
is_concurrent_apply_race other_failure = false

-- What each statement of the runner meets: a failure, or none and the next state.
pub record Database (W : Type 0) : Type 0 where
  pub create_table : W → Option Failure × W
  pub select_versions : W → Option Failure × W
  pub begin : W → Option Failure × W
  pub commit : W → Option Failure × W
  pub exec : Text → W → Option Failure × W
  pub insert_version : W → Option Failure × W

-- The files: filepath.Glob and os.ReadFile.
pub record Files : Type 0 where
  pub glob : Option (List Text)
  pub read : Text → Option Text

pub record Schema (W : Type 0) : Type 0 where
  pub versions : List Text
  pub world : W

-- `a <= b` of Go strings.
unfoldable pub text_leb : Text → Text → Bool
text_leb [] t = true
text_leb (a ∷ s) [] = false
text_leb (a ∷ s) (b ∷ t) = ltb a b || (if nat_eq a b then text_leb s t else false)

unfoldable pub insert_text : Text → List Text → List Text
unfolding text_leb
insert_text a [] = a ∷ []
insert_text a (b ∷ l) = if text_leb a b then a ∷ b ∷ l else b ∷ insert_text a l

-- sort.Strings.
unfoldable pub sort_strings : List Text → List Text
unfolding insert_text
sort_strings [] = []
sort_strings (a ∷ l) = insert_text a (sort_strings l)

-- filepath.Base of a path that does not end in a slash.
unfoldable pub base_of : Text → Text → Text
base_of seen [] = seen
base_of seen (b ∷ s) = base_of (if nat_eq b 47 then [] else seen ++ b ∷ []) s

unfoldable pub base : Text → Text
unfolding base_of
base path = base_of [] path

module _ {W : Type 0} (db : Database W) where
  -- The loop over the statements, which ends at the first failure.
  unfoldable pub exec_all : List Text → W → Option Failure × W
  exec_all [] w = (none, w)
  exec_all (statement ∷ statements) w =
      let (failed, w1) = db.exec statement w in
      let rest = exec_all statements w1 in elim failed [ some f ↦ (some f, w1) | none ↦ rest ]

  -- The deferred Rollback takes back what was executed, unless Commit was answered.
  unfoldable pub run_in_tx : List Text → W → Option Failure × W
  unfolding exec_all
  run_in_tx statements w =
      let (refused, w1) = db.begin w in
      let (failed, w2) = exec_all statements w1 in
      let (lost, w3) = db.commit w2 in
      elim refused [
        | some f ↦ (some f, w)
        | none ↦ elim failed [
          | some f ↦ (some f, w)
          | none ↦ elim lost [ some f ↦ (some f, w) | none ↦ (none, w3) ]
        ]
      ]

  unfoldable pub apply_text : Text → W → Option Failure × W
  unfolding run_in_tx
  apply_text raw w =
      if has_prefix (codes "-- no-transaction") (trim_space raw)
      then exec_all (split_statements raw) w
      else run_in_tx (split_statements raw) w

  -- INSERT INTO schema_migrations.
  unfoldable pub record_version : Text → Schema W → Option Failure × Schema W
  record_version version s =
      let (failed, w) = db.insert_version s.world in
      elim failed [
        | some f ↦ (some f, record s { world = w })
        | none ↦
            if contains version s.versions
            then (some (pg_error (codes "23505")), record s { world = w })
            else (none, record { versions = version ∷ s.versions; world = w })
      ]

  -- `if isConcurrentApplyRace(err) { continue }`, else the error.
  abbrev pub unless_race : Error → Failure → Option Error
  unless_race e f = if is_concurrent_apply_race f then none else some e

  -- The body of the loop for a file that is not applied yet.
  unfoldable pub migrate : Files → Text → Schema W → Option Error × Schema W
  unfolding apply_text record_version
  migrate files path s =
      let version = base path in
      elim (files.read path) [
        | none ↦ (some (reading_file version), s)
        | some raw ↦
            let (failed, w) = apply_text raw s.world in
            let s1 : Schema W = record s { world = w } in
            let (lost, s2) = record_version version s1 in
            elim failed [
              | some f ↦ (unless_race (applying version) f, s1)
              | none ↦ elim lost [
                | some f ↦ (unless_race (recording version) f, s2)
                | none ↦ (none, s2)
              ]
            ]
      ]

  -- One turn of the loop.
  unfoldable pub turn : Files → List Text → Text → Schema W → Option Error × Schema W
  unfolding migrate
  turn files applied path s =
      if contains (base path) applied then (none, s) else migrate files path s

  unfoldable pub migrate_all : Files → List Text → List Text → Schema W → Option Error × Schema W
  unfolding turn
  migrate_all files applied [] s = (none, s)
  migrate_all files applied (path ∷ paths) s =
      let (failed, s1) = turn files applied path s in
      let rest = migrate_all files applied paths s1 in
      elim failed [ some e ↦ (some e, s1) | none ↦ rest ]

  abbrev pub is_fatal : Option Failure → Bool
  is_fatal none = false
  is_fatal (some f) = not (is_concurrent_apply_race f)

  unfoldable pub run : Files → Schema W → Option Error × Schema W
  unfolding migrate_all sort_strings
  run files s =
      let (unprepared, w1) = db.create_table s.world in
      let s1 : Schema W = record s { world = w1 } in
      let (unread, w2) = db.select_versions w1 in
      let s2 : Schema W = record s { world = w2 } in
      if is_fatal unprepared then (some preparing, s1) else elim unread [
        | some f ↦ (some reading_versions, s2)
        | none ↦ elim files.glob [
          | none ↦ (some listing, s2)
          | some paths ↦ migrate_all files s.versions (sort_strings paths) s2
        ]
      ]
