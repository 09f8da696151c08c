-- ===== src/Rollout/Tables.antt =====
-- The tables rollouts and rollout_targets of deploy/migrations/0007_rollouts.sql, and the statements
-- that internal/rollout/store.go runs on them. A column of type jsonb gives back another text than
-- was written, and a column of times what was written.
use sense_grid.Common.{
  ℕ, Bool, false, ◌&&◌, ◌||◌, Option, none, some, List, [], ◌∷◌, if◌then◌else◌, ◌==◌, text_Eq, Text,
  Codec,
}
use sense_grid.Shadow.Types.{Desired}
use sense_grid.Rollout.Types.{Cohort, Stage, HealthCriteria, State, is_running, is_paused}

pub record RolloutRow : Type 0 where
  pub id : Text
  pub name : Text
  pub cohort : Text
  pub desired_config : Text
  pub stages : Text
  pub health_criteria : Text
  pub state : State
  pub current_stage_index : ℕ
  pub current_stage_started_at : ℕ
  pub created_at : ℕ
  pub updated_at : ℕ

pub record TargetRow : Type 0 where
  pub rollout_id : Text
  pub device_id : Text
  pub included_at_stage : ℕ
  pub pre_rollout_desired : Option Text
  pub pre_rollout_revision : ℕ
  pub pushed_revision : ℕ

pub record Tables : Type 0 where
  pub rollouts : List RolloutRow
  pub targets : List TargetRow

-- encoding/json for the documents of a row, and what a jsonb column gives back of a text.
pub record Columns (F : Type 0) : Type 0 where
  pub cohort : Codec Cohort
  pub desired : Codec (Desired F)
  pub stages : Codec (List Stage)
  pub criteria : Codec (HealthCriteria F)
  pub jsonb : Text → Text

-- `state IN ('running', 'paused')`.
abbrev pub is_open : State → Bool
is_open s = is_running s || is_paused s

-- SELECT ... WHERE id = $1.
unfoldable pub find_row : Text → List RolloutRow → Option RolloutRow
find_row id [] = none
find_row id (row ∷ rows) = if row.id == id then some row else find_row id rows

-- UPDATE ... WHERE id = $1.
unfoldable pub update_row : Text → (RolloutRow → RolloutRow) → List RolloutRow → List RolloutRow
update_row id f [] = []
update_row id f (row ∷ rows) = (if row.id == id then f row else row) ∷ update_row id f rows

-- The primary key of rollouts.
unfoldable pub has_id : Text → List RolloutRow → Bool
has_id id [] = false
has_id id (row ∷ rows) = row.id == id || has_id id rows

-- The primary key of rollout_targets.
unfoldable pub has_target : Text → Text → List TargetRow → Bool
has_target rollout device [] = false
has_target rollout device (row ∷ rows) =
    row.rollout_id == rollout && row.device_id == device || has_target rollout device rows

-- SELECT ... WHERE rollout_id = $1.
unfoldable pub targets_of : Text → List TargetRow → List TargetRow
targets_of rollout [] = []
targets_of rollout (row ∷ rows) =
    if row.rollout_id == rollout then row ∷ targets_of rollout rows else targets_of rollout rows

-- SELECT ... WHERE state IN ('running', 'paused').
unfoldable pub open_rows : List RolloutRow → List RolloutRow
open_rows [] = []
open_rows (row ∷ rows) = if is_open row.state then row ∷ open_rows rows else open_rows rows

abbrev pub with_state : State → ℕ → RolloutRow → RolloutRow
with_state s db_now row = record row { state = s; updated_at = db_now }

abbrev pub with_stage : ℕ → ℕ → ℕ → RolloutRow → RolloutRow
with_stage index started_at db_now row = record row {
  current_stage_index = index;
  current_stage_started_at = started_at;
  updated_at = db_now;
}
