-- ===== src/Alerts/Machine.antt =====
-- internal/alerts/machine.go.
use sense_grid.Common.{ℕ, ◌+◌, ◌≤◌, Option, none, some, List, [], ◌∷◌, arith}

pub data State : Type 0 where
  firing acknowledged resolved : State

pub data Event : Type 0 where
  acknowledge clear : Event

-- `alerts: invalid transition %s -> %s`.
pub data Invalid : Type 0 where
  invalid_transition : State → Event → Invalid

-- The state to be in, and the error if there is one.
unfoldable pub next : State → Event → State × Option Invalid
next firing acknowledge = (acknowledged, none)
next firing clear = (resolved, none)
next acknowledged clear = (resolved, none)
next current event = (current, some (invalid_transition current event))

-- How far an alert's life has come.
abbrev pub rank : State → ℕ
rank firing = 0
rank acknowledged = 1
rank resolved = 2

unfoldable pub run : State → List Event → State
run s [] = s
run s (e ∷ es) = run (next s e).0 es

unfoldable pub accepted : State → List Event → ℕ
accepted s [] = 0
accepted s (e ∷ es) =
    let rest = accepted (next s e).0 es in elim (next s e).1 [ none ↦ 1 + rest | some _ ↦ rest ]

rank-accepted : (s : State) (es : List Event) → rank s + accepted s es ≤ rank (run s es)
unfolding next run accepted
rank-accepted s [] = ground arith
rank-accepted s (e ∷ es) = ground (arith, rank-accepted (next s e).0 es)

rank_le : (s : State) → rank s ≤ 2
rank_le s = ground arith

-- From any state, over any events, the rank of the state grows by at least one with each accepted
-- event, so that at most two are ever accepted, and none after Resolved.
pub accepted_bounded :
    (s : State) (es : List Event)
    → (rank s + accepted s es ≤ rank (run s es)) × (rank s + accepted s es ≤ 2)
accepted_bounded s es = (rank-accepted s es, omega (arith, rank-accepted s es, rank_le (run s es)))
