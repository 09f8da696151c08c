-- ===== src/Migrations/Recorded.antt =====
-- What a run of the migrations leaves in schema_migrations.
use mathlib.Core.List.{reverse, reverse_aux, reverse_aux-eq, map}
use sense_grid.Common.{
  ◌≡◌, refl, sym, ap, subst, ◌∙◌, inl, inr, ◌⊎◌, Bool, false, not, none, some, Option, List, [],
  ◌∷◌, ◌++◌, arith, if◌then◌else◌, text_Eq, text_eq_iff, Text, contains, keep, All, IsDistinct,
  Bool-cases, Option-cases,
}
use sense_grid.Migrations.Run.{
  Failure, Error, Database, Files, Schema, is_concurrent_apply_race, apply_text, record_version,
  migrate, migrate_all, turn, is_fatal, run, base, sort_strings,
}

-- The files of a list that are not applied yet.
abbrev pub pending : List Text → List Text → List Text
pending applied paths = keep (λ path. not (contains (base path) applied)) paths

-- No failure of the database has one of the codes that Run takes for another process's work.
pub record NoRace {W : Type 0} (db : Database W) (files : Files) : Type 0 where
  pub applies :
      (raw : Text) (w : W) (f : Failure)
      → (apply_text db raw w).0 ≡ some f
      → is_concurrent_apply_race f ≡ false
  pub inserts :
      (w : W) (f : Failure) → (db.insert_version w).0 ≡ some f → is_concurrent_apply_race f ≡ false

module _ {W : Type 0} (db : Database W) (files : Files) (alone : NoRace db files) where
  record_version-new :
      (version : Text) (s : Schema W)
      → contains version s.versions ≡ false
      → ((f : Failure) × ((record_version db version s).0 ≡ some f)
          × (is_concurrent_apply_race f ≡ false))
        ⊎ (((record_version db version s).0 ≡ none)
            × ((record_version db version s).1.versions ≡ version ∷ s.versions))
  unfolding record_version
  record_version-new version s new = elim (Option-cases (db.insert_version s.world).0) [
    | inl fine ↦ rw (fine, record_version) (rw new (inr (refl, refl)))
    | inr (f, lost) ↦ rw (lost, record_version) (inl (f, refl, alone.inserts s.world f lost))
  ]

  migrate-new :
      (path : Text) (s : Schema W)
      → contains (base path) s.versions ≡ false
      → (migrate db files path s).0 ≡ none
      → (migrate db files path s).1.versions ≡ base path ∷ s.versions
  unfolding migrate
  migrate-new path s new done = elim (Option-cases (files.read path)) [
    | inl lost ↦ absurd (cc (rw (lost, migrate) at done))
    | inr (raw, read) ↦
        let w = (apply_text db raw s.world).1 in
        elim (Option-cases (apply_text db raw s.world).0) [
          | inr (f, failed) ↦ absurd (
              cc (
                rw (alone.applies raw s.world f failed) at
                  (rw failed at (rw (read, migrate) at done))))
          | inl fine ↦ elim (record_version-new (base path) (record s { world = w }) new) [
            | inl (f, lost, fatal) ↦
                absurd (cc (rw fatal at (rw lost at (rw fine at (rw (read, migrate) at done)))))
            | inr (saved, added) ↦ rw (read, migrate) (rw fine (rw saved added))
          ]
        ]
  ]

  -- A turn that ends without an error.
  turn-none :
      (applied : List Text) (path : Text) (s : Schema W)
      → contains (base path) s.versions ≡ contains (base path) applied
      → (turn db files applied path s).0 ≡ none
      → (turn db files applied path s).1.versions
        ≡ (if contains (base path) applied then s.versions else base path ∷ s.versions)
  unfolding turn
  turn-none applied path s same done = elim (Bool-cases (contains (base path) applied)) [
    | inl there ↦ rw there refl
    | inr fresh ↦ rw fresh (migrate-new path s (same ∙ fresh) (rw fresh at done))
  ]

  migrate_all-none :
      (applied : List Text) (path : Text) (paths : List Text) (s : Schema W)
      → (migrate_all db files applied (path ∷ paths) s).0 ≡ none
      → ((turn db files applied path s).0 ≡ none)
        × (migrate_all db files applied (path ∷ paths) s
            ≡ migrate_all db files applied paths (turn db files applied path s).1)
  unfolding migrate_all
  migrate_all-none applied path paths s done =
      elim (Option-cases (turn db files applied path s).0) [
        | inl fine ↦ (fine, rw (fine, migrate_all) refl)
        | inr (e, failed) ↦ absurd (cc (rw (failed, migrate_all) at done))
      ]

  -- The names that are still to come are recorded exactly where they were at the start.
  abbrev Untouched : List Text → List Text → List Text → Type 0
  Untouched applied paths versions =
      All (λ path. contains (base path) versions ≡ contains (base path) applied) paths

  Untouched-cons :
      (applied paths : List Text) (name : Text) (versions : List Text)
      → contains name (map base paths) ≡ false
      → Untouched applied paths versions
      → Untouched applied paths (name ∷ versions)
  Untouched-cons applied [] name versions other u = tt
  Untouched-cons applied (path ∷ paths) name versions other (same, u) = (
    ground (arith, text_eq_iff name (base path), text_eq_iff (base path) name),
    Untouched-cons applied paths name versions (ground arith) u,
  )

  migrate_all-versions :
      (applied paths : List Text) (s : Schema W)
      → Untouched applied paths s.versions
      → IsDistinct (map base paths)
      → (migrate_all db files applied paths s).0 ≡ none
      → (migrate_all db files applied paths s).1.versions
        ≡ reverse_aux (map base (pending applied paths)) s.versions
  unfolding migrate_all
  migrate_all-versions applied [] s u d done = refl
  migrate_all-versions applied (path ∷ paths) s (same, u) (other, d) done =
      let s1 = (turn db files applied path s).1 in
      let (fine, step) = migrate_all-none applied path paths s done in
      let kept = turn-none applied path s same fine in
      let later = ap (λ (x : Option Error × Schema W). x.0) (sym step) ∙ done in
      ap (λ (x : Option Error × Schema W). x.1.versions) step
      ∙ elim (Bool-cases (contains (base path) applied))
          as (λ _.
            (migrate_all db files applied paths s1).1.versions
            ≡ reverse_aux (map base (pending applied (path ∷ paths))) s.versions) [
              | inl there ↦
                  let kept' : s1.versions ≡ s.versions =
                    kept
                    ∙ ap (λ (b : Bool). if b then s.versions else base path ∷ s.versions) there in
                  migrate_all-versions applied paths s1
                    (subst (Untouched applied paths) (sym kept') u) d later
                  ∙ ap (reverse_aux (map base (pending applied paths))) kept'
                  ∙ rw there refl
              | inr fresh ↦
                  let kept' : s1.versions ≡ base path ∷ s.versions =
                    kept
                    ∙ ap (λ (b : Bool). if b then s.versions else base path ∷ s.versions) fresh in
                  migrate_all-versions applied paths s1
                    (subst (Untouched applied paths) (sym kept')
                      (Untouched-cons applied paths (base path) s.versions other u))
                    d later
                  ∙ ap (reverse_aux (map base (pending applied paths))) kept'
                  ∙ rw fresh refl
            ]

  Untouched-refl : (applied paths : List Text) → Untouched applied paths applied
  Untouched-refl applied [] = tt
  Untouched-refl applied (path ∷ paths) = (refl, Untouched-refl applied paths)

  run-none :
      (s : Schema W) (paths : List Text)
      → files.glob ≡ some paths
      → (run db files s).0 ≡ none
      → (s2 : Schema W) × (s2.versions ≡ s.versions)
        × (run db files s ≡ migrate_all db files s.versions (sort_strings paths) s2)
  unfolding run
  run-none s paths listed done =
      let (unprepared, w1) = db.create_table s.world in
      let (unread, w2) = db.select_versions w1 in
      elim (Bool-cases (is_fatal db unprepared)) [
        | inl fatal ↦ absurd (cc (rw fatal at done))
        | inr fine ↦ elim (Option-cases unread) [
          | inr (f, failed) ↦ absurd (cc (rw failed at (rw fine at done)))
          | inl answered ↦ (record s { world = w2 }, refl, rw fine (rw answered (rw listed refl)))
        ]
      ]

  -- Where no failure has a code that Run takes for the work of another process, and the files have
  -- distinct names: a Run that ends without an error has recorded each file that was not recorded
  -- before, once and in the order of the names, before which stands what was recorded already.
  pub run-versions :
      (s : Schema W) (paths : List Text)
      → files.glob ≡ some paths
      → IsDistinct (map base (sort_strings paths))
      → (run db files s).0 ≡ none
      → (run db files s).1.versions
        ≡ reverse (map base (pending s.versions (sort_strings paths))) ++ s.versions
  run-versions s paths listed d done =
      let (s2, same, e) = run-none s paths listed done in
      let sorted = sort_strings paths in
      let later = ap (λ (x : Option Error × Schema W). x.0) (sym e) ∙ done in
      ap (λ (x : Option Error × Schema W). x.1.versions) e
      ∙ migrate_all-versions s.versions sorted s2
          (subst (Untouched s.versions sorted) (sym same) (Untouched-refl s.versions sorted)) d
          later
      ∙ ap (reverse_aux (map base (pending s.versions sorted))) same
      ∙ reverse_aux-eq (map base (pending s.versions sorted)) s.versions
