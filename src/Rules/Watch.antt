-- ===== src/Rules/Watch.antt =====
-- The Watcher of internal/rules/watch.go. A poll finds the file's modification time, none where
-- os.Stat fails, and what the file then holds; the log line of a failed reload is left out.
use sense_grid.Common.{
  ℕ, ◌≡◌, inl, inr, Bool, true, false, Option, none, some, List, [], ◌∷◌, arith, ltb, if◌then◌else◌,
  Text, All, Result, Result-cases, ok, err, Bool-cases,
}
use sense_grid.Rules.Rule.{Rule, LoadError, load, IsNamed, load-All}

pub record Watcher (F : Type 0) : Type 0 where
  pub current : List (Rule F)
  pub last_mod : Option ℕ

pub record Poll : Type 0 where
  pub mod_time : Option ℕ
  pub file : Option Text

-- `!mod.IsZero() && mod.After(lastMod)`.
abbrev pub is_newer : Option ℕ → Option ℕ → Bool
is_newer none last = false
is_newer (some t) none = true
is_newer (some t) (some u) = ltb u t

module _ {F : Type 0} (parse : Text → Option (List (Rule F))) where
  -- NewWatcher, and the first line of Run.
  unfoldable pub new_watcher : Option Text → Option ℕ → Result LoadError (Watcher F)
  new_watcher file mod_time = elim (load parse file) [
    | err why ↦ err why
    | ok rules ↦ ok (record { current = rules; last_mod = mod_time })
  ]

  -- One tick of Run.
  unfoldable pub poll : Poll → Watcher F → Watcher F
  poll p w =
      let w' : Watcher F = record w { last_mod = p.mod_time } in
      if is_newer p.mod_time w.last_mod
      then elim (load parse p.file) [ err why ↦ w' | ok rules ↦ record w' { current = rules } ]
      else w

  unfoldable pub run : List Poll → Watcher F → Watcher F
  run [] w = w
  run (p ∷ ps) w = run ps (poll p w)

  poll-All : (p : Poll) (w : Watcher F) → All IsNamed w.current → All IsNamed (poll p w).current
  unfolding poll
  poll-All p w a = elim (Bool-cases (is_newer p.mod_time w.last_mod)) [
    | inr old ↦ rw (old, poll) a
    | inl newer ↦
        rw (newer, poll)
          (elim (Result-cases (load parse p.file)) [
            | inl (why, bad) ↦ rw bad a
            | inr (rules, good) ↦ rw good (load-All parse p.file rules good)
          ])
  ]

  run-All :
      (ps : List Poll) (w : Watcher F) → All IsNamed w.current → All IsNamed (run ps w).current
  unfolding run
  run-All [] w a = a
  run-All (p ∷ ps) w a = run-All ps (poll p w) (poll-All p w a)

  -- A watcher that could be made holds rules that all have a name and a sensor, after any polls,
  -- whatever the file holds at them.
  pub run-new_watcher-All :
      (file : Option Text) (mod_time : Option ℕ) (w : Watcher F) (ps : List Poll)
      → new_watcher file mod_time ≡ ok w
      → All IsNamed (run ps w).current
  unfolding new_watcher
  run-new_watcher-All file mod_time w ps h = elim (Result-cases (load parse file)) [
    | inl (why, bad) ↦ ground arith
    | inr (rules, good) ↦
        let same : w.current ≡ rules = ground arith in
        run-All ps w (rw same (load-All parse file rules good))
  ]
