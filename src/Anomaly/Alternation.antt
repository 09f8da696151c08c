-- ===== src/Anomaly/Alternation.antt =====
-- The edges that the evaluator reports for one key.
use sense_grid.Common.{
  ℕ, ◌≡◌, refl, Bool, true, false, List, [], ◌∷◌, arith, if◌then◌else◌, ◌==◌, lookup-insert,
  lookup-delete,
}
use sense_grid.Anomaly.Evaluator.{
  Key, key_Eq, key_eq_iff, Event, no_change, fired, cleared, Counters, new_evaluator, at_least_one,
  observe, counters_at, update, forget,
}
use sense_grid.Anomaly.Streaks.{Call, updates, forgets, run}

abbrev push : Event → List Event → List Event
push no_change es = es
push fired es = fired ∷ es
push cleared es = cleared ∷ es

-- What `Update` answered for one key since it was last forgotten, NoChange left out, newest first.
unfoldable pub log : Key → List Call → List Event
unfolding run
log k [] = []
log k (updates j v m ∷ cs) = if j == k then push (update (run cs) j v m).1 (log k cs) else log k cs
log k (forgets j ∷ cs) = if j == k then [] else log k cs

-- Newest first: each Cleared stands upon a Fired, and the oldest is a Fired.
abbrev pub Alternates : List Event → Type 0
Alternates [] = Unit {0}
Alternates (fired ∷ []) = Unit {0}
Alternates (fired ∷ cleared ∷ es) = Alternates (cleared ∷ es)
Alternates (cleared ∷ fired ∷ es) = Alternates (fired ∷ es)
Alternates (_ ∷ _) = ⊥

abbrev pub is_open : List Event → Bool
is_open (fired ∷ es) = true
is_open _ = false

observe-Alternates :
    (v : Bool) (m : ℕ) (c : Counters) (es : List Event)
    → Alternates es
    → c.opened ≡ is_open es
    → let (c', e) = observe v m c in Alternates (push e es) × (c'.opened ≡ is_open (push e es))
unfolding observe
observe-Alternates true m c [] a o = ground arith
observe-Alternates true m c (no_change ∷ es) a o = ground arith
observe-Alternates true m c (fired ∷ es) a o = ground arith
observe-Alternates true m c (cleared ∷ es) a o = ground arith
observe-Alternates false m c [] a o = ground arith
observe-Alternates false m c (no_change ∷ es) a o = ground arith
observe-Alternates false m c (fired ∷ es) a o = ground arith
observe-Alternates false m c (cleared ∷ es) a o = ground arith

-- Whatever the calls, the answers for one key alternate between Fired and Cleared, beginning with
-- Fired, and the key's counters are open exactly when the last of them was Fired.
pub log-Alternates :
    (cs : List Call) (k : Key)
    → Alternates (log k cs) × ((counters_at (run cs) k).opened ≡ is_open (log k cs))
unfolding log run update forget new_evaluator
log-Alternates [] k = (tt, refl)
log-Alternates (updates j v m ∷ cs) k =
    let c = observe v (at_least_one m) (counters_at (run cs) j) in
    ground (
      arith,
      key_eq_iff j k,
      log-Alternates cs k,
      lookup-insert j k c.0 (run cs),
      observe-Alternates v (at_least_one m) (counters_at (run cs) j) (log k cs),
    )
log-Alternates (forgets j ∷ cs) k = ground (arith, log-Alternates cs k, lookup-delete j k (run cs))
