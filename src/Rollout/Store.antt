-- ===== src/Rollout/Store.antt =====
-- internal/rollout/store.go. Each call is one statement, which the database answers or not (`up`);
-- `db_now` is now() of the statement. A foreign key that refuses a target is an unanswered
-- statement too.
use sense_grid.Common.{
  ℕ, Bool, not, Option, none, some, List, [], ◌∷◌, ◌++◌, if◌then◌else◌, Text, Result, ok, err,
  ◌>>=◌, sort_asc, sort_desc,
}
use sense_grid.Shadow.Types.{Desired}
use sense_grid.Rollout.Types.{Rollout, State, Target}
use sense_grid.Rollout.Tables.{
  RolloutRow, TargetRow, Tables, Columns, find_row, update_row, has_id, has_target, targets_of,
  open_rows, with_state, with_stage,
}

pub data Error : Type 0 where
  marshaling unmarshaling query_failed : Error

-- `if err != nil { return fmt.Errorf(...) }`.
abbrev pub or_else {ℓ} : {A : Type ℓ} → Error → Option A → Result Error A
or_else e none = err e
or_else e (some a) = ok a

module _ {F : Type 0} (c : Columns F) where
  -- The row that Create inserts: created_at and updated_at are the defaults of the table.
  unfoldable pub row_of : ℕ → Rollout F → Result Error RolloutRow
  row_of db_now r = do
    cohort ← or_else marshaling (c.cohort.marshal r.cohort)
    desired ← or_else marshaling (c.desired.marshal r.desired_config)
    stages ← or_else marshaling (c.stages.marshal r.stages)
    criteria ← or_else marshaling (c.criteria.marshal r.health_criteria)
    ok (record {
      id = r.id;
      name = r.name;
      cohort = cohort;
      desired_config = desired;
      stages = stages;
      health_criteria = criteria;
      state = r.state;
      current_stage_index = r.current_stage_index;
      current_stage_started_at = r.current_stage_started_at;
      created_at = db_now;
      updated_at = db_now;
    })

  unfoldable pub scan_rollout : RolloutRow → Result Error (Rollout F)
  scan_rollout row = do
    cohort ← or_else unmarshaling (c.cohort.unmarshal (c.jsonb row.cohort))
    desired ← or_else unmarshaling (c.desired.unmarshal (c.jsonb row.desired_config))
    stages ← or_else unmarshaling (c.stages.unmarshal (c.jsonb row.stages))
    criteria ← or_else unmarshaling (c.criteria.unmarshal (c.jsonb row.health_criteria))
    ok (record {
      id = row.id;
      name = row.name;
      cohort = cohort;
      desired_config = desired;
      stages = stages;
      health_criteria = criteria;
      state = row.state;
      current_stage_index = row.current_stage_index;
      current_stage_started_at = row.current_stage_started_at;
      created_at = row.created_at;
      updated_at = row.updated_at;
    })

  unfoldable pub create : Bool → ℕ → Rollout F → Tables → Option Error × Tables
  create up db_now r t = elim (row_of db_now r) [
    | err e ↦ (some e, t)
    | ok row ↦
        if not up
        then (some query_failed, t)
        else if has_id r.id t.rollouts
        then (some query_failed, t)
        else (none, record t { rollouts = t.rollouts ++ row ∷ [] })
  ]

  unfoldable pub get : Bool → Text → Tables → Result Error (Option (Rollout F))
  get up id t = if not up then err query_failed else elim (find_row id t.rollouts) [
    | none ↦ ok none
    | some row ↦ elim (scan_rollout row) [ err e ↦ err e | ok r ↦ ok (some r) ]
  ]

  -- The loop of query: the first row that cannot be scanned ends it.
  unfoldable pub scan_all : List RolloutRow → Result Error (List (Rollout F))
  scan_all [] = ok []
  scan_all (row ∷ rows) = do r ← scan_rollout row; rs ← scan_all rows; ok (r ∷ rs)

  unfoldable pub query : Bool → List RolloutRow → Result Error (List (Rollout F))
  query up rows = if not up then err query_failed else scan_all rows

  unfoldable pub list : Bool → Tables → Result Error (List (Rollout F))
  unfolding query
  list up t = query up (sort_desc (λ (row : RolloutRow). row.created_at) t.rollouts)

  unfoldable pub list_non_terminal : Bool → Tables → Result Error (List (Rollout F))
  unfolding query
  list_non_terminal up t =
      query up (sort_asc (λ (row : RolloutRow). row.created_at) (open_rows t.rollouts))

  unfoldable pub update_state : Bool → ℕ → Text → State → Tables → Option Error × Tables
  update_state up db_now id s t =
      if up
      then (none, record t { rollouts = update_row id (with_state s db_now) t.rollouts })
      else (some query_failed, t)

  unfoldable pub advance_stage : Bool → ℕ → Text → ℕ → ℕ → Tables → Option Error × Tables
  advance_stage up db_now id index started_at t =
      if up
      then (
        none,
        record t { rollouts = update_row id (with_stage index started_at db_now) t.rollouts },
      )
      else (some query_failed, t)

  -- `preDesiredJSON`, which stays nil where there was no configuration.
  unfoldable pub pre_desired_json : Option (Desired F) → Result Error (Option Text)
  pre_desired_json none = ok none
  pre_desired_json (some d) = do body ← or_else marshaling (c.desired.marshal d); ok (some body)

  unfoldable pub record_target : Bool → Text → Target F → Tables → Option Error × Tables
  unfolding pre_desired_json
  record_target up rollout_id target t = elim (pre_desired_json target.pre_desired) [
    | err e ↦ (some e, t)
    | ok body ↦
        if not up
        then (some query_failed, t)
        else if has_target rollout_id target.device_id t.targets
        then (none, t)
        else (
          none,
          record t {
            targets =
                t.targets
                ++ record {
                  rollout_id = rollout_id;
                  device_id = target.device_id;
                  included_at_stage = target.included_at_stage;
                  pre_rollout_desired = body;
                  pre_rollout_revision = target.pre_revision;
                  pushed_revision = target.pushed_revision;
                }
                  ∷ [];
          },
        )
  ]

  -- `if len(preDesiredJSON) > 0`.
  unfoldable pub scan_body : Text → Result Error (Option (Desired F))
  scan_body [] = ok none
  scan_body (b ∷ bs) = do d ← or_else unmarshaling (c.desired.unmarshal (b ∷ bs)); ok (some d)

  unfoldable pub scan_pre_desired : Option Text → Result Error (Option (Desired F))
  unfolding scan_body
  scan_pre_desired none = ok none
  scan_pre_desired (some body) = scan_body (c.jsonb body)

  unfoldable pub scan_target : TargetRow → Result Error (Target F)
  unfolding scan_pre_desired
  scan_target row = do
    pre ← scan_pre_desired row.pre_rollout_desired
    ok (record {
      device_id = row.device_id;
      included_at_stage = row.included_at_stage;
      pre_desired = pre;
      pre_revision = row.pre_rollout_revision;
      pushed_revision = row.pushed_revision;
    })

  unfoldable pub scan_targets : List TargetRow → Result Error (List (Target F))
  scan_targets [] = ok []
  scan_targets (row ∷ rows) = do t ← scan_target row; ts ← scan_targets rows; ok (t ∷ ts)

  unfoldable pub list_targets : Bool → Text → Tables → Result Error (List (Target F))
  list_targets up rollout_id t =
      if not up then err query_failed else scan_targets (targets_of rollout_id t.targets)
