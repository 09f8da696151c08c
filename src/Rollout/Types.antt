-- ===== src/Rollout/Types.antt =====
-- internal/rollout/types.go, Target of store.go, and the columns of internal/devices that a rollout
-- reads. Times and durations are nanoseconds; an int that the code treats alike for every value
-- below 1, such as a percentage, is 0 there.
use sense_grid.Common.{ℤ, ℕ, Bool, true, false, Option, List, Text}
use sense_grid.Shadow.Types.{Desired}

pub record Cohort : Type 0 where
  pub device_type : Text
  pub device_ids : List Text

pub record Stage : Type 0 where
  pub percent : ℕ
  pub bake_duration : ℤ

pub record HealthCriteria (F : Type 0) : Type 0 where
  pub max_error_rate : F
  pub max_disconnect_rate : F
  pub max_rejection_rate : F

pub data State : Type 0 where
  running paused completed aborted : State

pub record Rollout (F : Type 0) : Type 0 where
  pub id : Text
  pub name : Text
  pub cohort : Cohort
  pub desired_config : Desired F
  pub stages : List Stage
  pub health_criteria : HealthCriteria F
  pub state : State
  pub current_stage_index : ℕ
  pub current_stage_started_at : ℕ
  pub created_at : ℕ
  pub updated_at : ℕ

pub data EventType : Type 0 where
  stage_started stage_advanced health_breached paused_event resumed_event completed_event
        aborted_event :
      EventType

-- What a reason says: the label, the count, how many were targeted and the maximum.
pub data Reason (F : Type 0) : Type 0 where
  exceeds : Text → ℕ → ℕ → F → Reason F
  manually_aborted : Reason F

pub data Detail (F : Type 0) : Type 0 where
  no_detail : Detail F
  stage_index : ℕ → Detail F
  reasons : List (Reason F) → Detail F

pub record RolloutEvent (F : Type 0) : Type 0 where
  pub rollout_id : Text
  pub event_type : EventType
  pub at_stage : ℕ
  pub detail : Detail F
  pub timestamp : ℕ

pub record Target (F : Type 0) : Type 0 where
  pub device_id : Text
  pub included_at_stage : ℕ
  pub pre_desired : Option (Desired F)
  pub pre_revision : ℕ
  pub pushed_revision : ℕ

pub record Device : Type 0 where
  pub id : Text
  pub device_type : Text
  pub last_seen : Option ℕ

abbrev pub is_running : State → Bool
is_running running = true
is_running _ = false

abbrev pub is_paused : State → Bool
is_paused paused = true
is_paused _ = false
