-- ===== src/Rollout/Services.antt =====
-- What the engine is built against: the interfaces of internal/rollout/engine.go and RolloutStore of
-- store.go, with the clock and the source of ids. W is the world behind them. Each call answers,
-- where it can fail with none or false for an error, and leaves a new world.
use sense_grid.Common.{ℕ, Bool, Option, List, Text}
use sense_grid.Shadow.Types.{Desired, Reported}
use sense_grid.Rollout.Types.{Rollout, State, Target, Device, RolloutEvent}

pub record Services (F W : Type 0) : Type 0 where
  -- ShadowSetter.
  pub set_desired : Text → Desired F → W → Option (Desired F) × W
  pub get_desired : Text → W → Option (Desired F × ℕ) × W
  pub get_reported : Text → W → Option (Option (Reported F)) × W
  -- DevicePublisher, which may be nil.
  pub publish_desired : Option (Text → Desired F → W → Bool × W)
  -- DeviceLister.
  pub list_devices : W → Option (List Device) × W
  -- ErrorSignal, which may be nil.
  pub firing_count : Option (List Text → ℕ → W → Option ℕ × W)
  -- RolloutStore.
  pub create : Rollout F → W → Bool × W
  pub get : Text → W → Option (Option (Rollout F)) × W
  pub list : W → Option (List (Rollout F)) × W
  pub list_non_terminal : W → Option (List (Rollout F)) × W
  pub update_state : Text → State → W → Bool × W
  pub advance_stage : Text → ℕ → ℕ → W → Bool × W
  pub record_target : Text → Target F → W → Bool × W
  pub list_targets : Text → W → Option (List (Target F)) × W
  -- EventPublisher, which may be nil.
  pub publish_event : Option (RolloutEvent F → W → Bool × W)
  -- time.Now and uuid.NewString.
  pub now : W → ℕ × W
  pub new_id : W → Text × W
