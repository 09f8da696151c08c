-- ===== src/Anomaly/Streaks.antt =====
-- What the evaluator's counters mean: they are the lengths of the streaks at the end of a key's
-- own history of observations, whatever happens under the other keys.
use sense_grid.Common.{
  ℕ, zero, suc, ◌≤◌, ◌<◌, ◌≡◌, refl, ◌↔◌, Bool, true, false, List, [], ◌∷◌, arith, if◌then◌else◌,
  ◌==◌, lookup-insert, lookup-delete,
}
use sense_grid.Anomaly.Evaluator.{
  key_Eq, cleared, Key, key_eq_iff, Event, fired, Counters, Evaluator, new_evaluator, fresh,
  at_least_one, observe, counters_at, update, forget,
}

-- What one key was told, newest first: whether the observation violates, and the rule's M.
abbrev pub History : Type 0
History = List (Bool × ℕ)

pub after : History → Counters
after [] = fresh
after ((v, m) ∷ older) = (observe v (at_least_one m) (after older)).0

pub emitted : Bool → ℕ → History → Event
emitted v m older = (observe v (at_least_one m) (after older)).1

-- The last `n` observations were all `b`.
abbrev pub LastAll : Bool → ℕ → History → Type 0
LastAll b zero h = Unit
LastAll b (suc n) [] = ⊥
LastAll b (suc n) ((v, m) ∷ h) = (v ≡ b) × LastAll b n h

abbrev same : Bool → Bool → Bool
same true b = b
same false true = false
same false false = true

streak : Bool → History → ℕ
streak b [] = 0
streak b ((v, m) ∷ h) = if same v b then suc (streak b h) else 0

LastAll-streak : (b : Bool) (n : ℕ) (h : History) → LastAll b n h ↔ (n ≤ streak b h)
unfolding streak
LastAll-streak b zero h = ground arith
LastAll-streak b (suc n) [] = ground arith
LastAll-streak true (suc n) ((true, m) ∷ h) = ground (arith, LastAll-streak true n h)
LastAll-streak true (suc n) ((false, m) ∷ h) = ground arith
LastAll-streak false (suc n) ((true, m) ∷ h) = ground arith
LastAll-streak false (suc n) ((false, m) ∷ h) = ground (arith, LastAll-streak false n h)

LastAll-head :
    (b : Bool) (n m : ℕ) (v : Bool) (h : History) → 0 < n → LastAll b n ((v, m) ∷ h) → v ≡ b
LastAll-head b zero m v h p l = elim p [ ]
LastAll-head b (suc n) m v h p l = l.0

LastAll-first :
    (b : Bool) (m : ℕ) (v : Bool) (h : History) → LastAll b (at_least_one m) ((v, m) ∷ h) → v ≡ b
LastAll-first b m v h l = LastAll-head b (at_least_one m) m v h (ground arith) l

after-streak :
    (h : History) → ((after h).violations ≡ streak true h) × ((after h).clears ≡ streak false h)
unfolding after observe streak
after-streak [] = (refl, refl)
after-streak ((true, m) ∷ h) = ground (arith, after-streak h)
after-streak ((false, m) ∷ h) = ground (arith, after-streak h)

emitted-fired :
    (v : Bool) (m : ℕ) (h : History)
    → (emitted v m h ≡ fired)
      ↔ (((after h).opened ≡ false) × (v ≡ true) × (at_least_one m ≤ streak true ((v, m) ∷ h)))
unfolding emitted observe streak
emitted-fired true m h = ground (arith, after-streak h)
emitted-fired false m h = ground arith

emitted-cleared :
    (v : Bool) (m : ℕ) (h : History)
    → (emitted v m h ≡ cleared)
      ↔ (((after h).opened ≡ true) × (v ≡ false) × (at_least_one m ≤ streak false ((v, m) ∷ h)))
unfolding emitted observe streak
emitted-cleared true m h = ground arith
emitted-cleared false m h = ground (arith, after-streak h)

-- Calls of the evaluator, newest first, over any keys.
pub data Call : Type 0 where
  updates : Key → Bool → ℕ → Call
  forgets : Key → Call

unfoldable pub run : List Call → Evaluator
run [] = new_evaluator
run (updates k v m ∷ cs) = (update (run cs) k v m).0
run (forgets k ∷ cs) = forget (run cs) k

-- What one key was told since it was last forgotten.
unfoldable pub history : Key → List Call → History
history k [] = []
history k (updates j v m ∷ cs) = if j == k then (v, m) ∷ history k cs else history k cs
history k (forgets j ∷ cs) = if j == k then [] else history k cs

pub counters-run : (cs : List Call) (k : Key) → counters_at (run cs) k ≡ after (history k cs)
unfolding run history after update forget new_evaluator
counters-run [] k = refl
counters-run (updates j v m ∷ cs) k = ground (
  arith,
  key_eq_iff j k,
  counters-run cs k,
  lookup-insert j k (observe v (at_least_one m) (counters_at (run cs) j)).0 (run cs),
)
counters-run (forgets j ∷ cs) k = ground (arith, counters-run cs k, lookup-delete j k (run cs))

event-run :
    (cs : List Call) (k : Key) (v : Bool) (m : ℕ)
    → (update (run cs) k v m).1 ≡ emitted v m (history k cs)
unfolding update emitted
event-run cs k v m = rw (counters-run cs k)

-- After any calls, `Update` answers Fired exactly when the key is not open and the last M
-- observations of this key since it was last forgotten, the new one included, all violate.
pub update-fired_iff :
    (cs : List Call) (k : Key) (v : Bool) (m : ℕ)
    → ((update (run cs) k v m).1 ≡ fired) ↔ (
        ((counters_at (run cs) k).opened ≡ false)
        × LastAll true (at_least_one m) ((v, m) ∷ history k cs))
update-fired_iff cs k v m =
    rw (event-run cs k v m, counters-run cs k)
      (ground (
        arith,
        emitted-fired v m (history k cs),
        LastAll-streak true (at_least_one m) ((v, m) ∷ history k cs),
        LastAll-first true m v (history k cs),
      ))

-- After any calls, `Update` answers Cleared exactly when the key is open and none of the last M
-- observations of this key since it was last forgotten, the new one included, violates.
pub update-cleared_iff :
    (cs : List Call) (k : Key) (v : Bool) (m : ℕ)
    → ((update (run cs) k v m).1 ≡ cleared) ↔ (
        ((counters_at (run cs) k).opened ≡ true)
        × LastAll false (at_least_one m) ((v, m) ∷ history k cs))
update-cleared_iff cs k v m =
    rw (event-run cs k v m, counters-run cs k)
      (ground (
        arith,
        emitted-cleared v m (history k cs),
        LastAll-streak false (at_least_one m) ((v, m) ∷ history k cs),
        LastAll-first false m v (history k cs),
      ))
