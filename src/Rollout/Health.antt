-- ===== src/Rollout/Health.antt =====
-- internal/rollout/health.go, over any floats.
use sense_grid.Common.{
  ℕ, ◌≡◌, ◌≢◌, ◌↔◌, ◌&&◌, ◌||◌, Bool, true, false, List, [], ◌∷◌, ◌++◌, arith, nat_eq,
  if◌then◌else◌, Text, codes, Float,
}
use sense_grid.Rollout.Types.{HealthCriteria, Reason, exceeds}

module _ {F : Type 0} (fl : Float F) where
  open fl use {nil, div, of_int, lt}

  -- `max > 0 && rate > max`.
  abbrev pub over : ℕ → ℕ → F → Bool
  over targeted count max = lt nil max && lt max (div (of_int count) (of_int targeted))

  -- The closure `check`, on what it captures.
  abbrev pub check : ℕ → ℕ → F → Text → Bool × List (Reason F) → Bool × List (Reason F)
  check targeted count max label (breached, found) =
      if over targeted count max
      then (true, found ++ exceeds label count targeted max ∷ [])
      else (breached, found)

  unfoldable pub evaluate_health : HealthCriteria F → ℕ → ℕ → ℕ → ℕ → Bool × List (Reason F)
  evaluate_health c targeted rejected disconnected errored =
      if nat_eq targeted 0
      then (false, [])
      else check targeted errored c.max_error_rate (codes "error") (
          check targeted disconnected c.max_disconnect_rate (codes "disconnect")
            (check targeted rejected c.max_rejection_rate (codes "rejection") (false, [])))

  -- A stage is in breach exactly when it has targets and one of the three counts, over the number
  -- of targets, exceeds its maximum, that maximum being positive; and then there is a reason.
  pub evaluate_health-breached_iff :
      (c : HealthCriteria F) (targeted rejected disconnected errored : ℕ)
      → ((evaluate_health c targeted rejected disconnected errored).0 ≡ true) ↔ (
          (targeted ≢ 0)
          × ((over targeted rejected c.max_rejection_rate
                || (over targeted disconnected c.max_disconnect_rate
                    || over targeted errored c.max_error_rate))
              ≡ true))
  unfolding evaluate_health
  evaluate_health-breached_iff c targeted rejected disconnected errored = ground arith

  -- There are reasons exactly when there is a breach.
  pub evaluate_health-reasons_iff :
      (c : HealthCriteria F) (targeted rejected disconnected errored : ℕ)
      → ((evaluate_health c targeted rejected disconnected errored).1 ≡ [])
        ↔ ((evaluate_health c targeted rejected disconnected errored).0 ≡ false)
  unfolding evaluate_health
  evaluate_health-reasons_iff c targeted rejected disconnected errored = ground arith
