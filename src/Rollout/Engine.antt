-- ===== src/Rollout/Engine.antt =====
-- internal/rollout/engine.go. Every method holds the mutex for its whole body, so a run is a sequence
-- of calls. `active` maps an id to the rollout that the source points to; an index out of range is a
-- panic, which the flag records. Log lines are left out. The calls of the API are in Commands.antt.
use sense_grid.Common.{
  ℤ, pos, negsuc, ℕ, ◌+◌, Bool, true, false, none, some, List, [], ◌∷◌, ltb, nat_eq, if◌then◌else◌,
  text_Eq, Text, length, get_elem?, contains, lookup, insert, delete, Float,
}
use sense_grid.Rollout.Types.{
  Rollout, completed, aborted, is_running, Target, EventType, Detail, Reason, stage_advanced,
  health_breached, completed_event, aborted_event, no_detail, stage_index, reasons,
}
use sense_grid.Rollout.Cohort.{select_cohort, stage_targets}
use sense_grid.Rollout.Health.{evaluate_health}
use sense_grid.Rollout.Services.{Services}
use sense_grid.Rollout.Signals.{device_ids, publish, publish_desired, evaluate_stage_health}

pub record Engine (F W : Type 0) : Type 0 where
  pub active : List (Text × Rollout F)
  pub world : W
  pub panicked : Bool

module _ {F W : Type 0} where
  abbrev pub with_world : Engine F W → W → Engine F W
  with_world e w = record e { world = w }

  abbrev pub panic : Engine F W → Engine F W
  panic e = record e { panicked = true }

  -- A write through the pointer that `active` holds.
  abbrev pub put : Engine F W → Rollout F → Engine F W
  put e r = record e { active = insert r.id r e.active }

-- `time.Since(started) < bake`.
abbrev pub is_baking : ℕ → ℕ → ℤ → Bool
is_baking t started (pos bake) = ltb t (started + bake)
is_baking t started (negsuc n) = ltb (t + n + 1) started

-- `r.CurrentStageIndex++; r.CurrentStageStartedAt = time.Now()`.
abbrev pub next_stage : {F : Type 0} → Rollout F → ℕ → Rollout F
next_stage r t = record r {
  current_stage_index = r.current_stage_index + 1;
  current_stage_started_at = t;
}

-- `already[id]`.
abbrev pub is_target : {F : Type 0} → Text → List (Target F) → Bool
is_target id ts = contains id (device_ids ts)

module _ {F W : Type 0} (fl : Float F) (sv : Services F W) (stale_after : ℕ) where
  open sv use {now as clock}

  unfoldable pub new_engine : W → Engine F W
  new_engine w = record { active = []; world = w; panicked = false }

  unfoldable pub announce : Engine F W → Rollout F → EventType → Detail F → Engine F W
  announce e r event what = with_world e (publish sv e.world r event what)

  -- The body of the loop in applyStage, for a device that is no target yet.
  unfoldable pub push_config : Rollout F → Text → W → W
  push_config r id w =
      let (pre, w1) = sv.get_desired id w in
      elim pre [
        | none ↦ w1
        | some (desired, revision) ↦
            let (set, w2) = sv.set_desired id r.desired_config w1 in
            elim set [
              | none ↦ w2
              | some pushed ↦
                  let (recorded, w3) =
                    sv.record_target r.id
                      (record {
                        device_id = id;
                        included_at_stage = r.current_stage_index;
                        pre_desired = if ltb 0 revision then some desired else none;
                        pre_revision = revision;
                        pushed_revision = pushed.revision;
                      })
                      w2 in
                  publish_desired sv id pushed w3
            ]
      ]

  unfoldable pub push_all : Rollout F → List (Target F) → List Text → W → W
  push_all r existing [] w = w
  push_all r existing (id ∷ ids) w =
      push_all r existing ids (if is_target id existing then w else push_config r id w)

  unfoldable pub apply_stage : Engine F W → Rollout F → Engine F W
  apply_stage e r =
      let (all, w1) = sv.list_devices e.world in
      elim all [
        | none ↦ with_world e w1
        | some devices ↦ elim (get_elem? r.stages r.current_stage_index) [
          | none ↦ panic (with_world e w1)
          | some stage ↦
              let ids = stage_targets (select_cohort devices r.cohort) stage.percent in
              let (existing, w2) = sv.list_targets r.id w1 in
              elim existing [
                | none ↦ with_world e w2
                | some ts ↦ with_world e (push_all r ts ids w2)
              ]
        ]
      ]

  -- The source moves the stage through the pointer, so that `active` sees it too.
  unfoldable pub advance_locked : Engine F W → Rollout F → Engine F W
  unfolding announce
  advance_locked e r =
      let (t, w1) = clock e.world in
      let r' = next_stage r t in
      let (saved, w2) = sv.advance_stage r'.id r'.current_stage_index t w1 in
      announce (apply_stage (put (with_world e w2) r') r') r' stage_advanced
        (stage_index r'.current_stage_index)

  unfoldable pub complete_locked : Engine F W → Rollout F → Engine F W
  unfolding announce
  complete_locked e r =
      let r' = record r { state = completed } in
      let (saved, w) = sv.update_state r'.id completed e.world in
      announce (record e { active = delete r'.id e.active; world = w }) r' completed_event no_detail

  -- The loop of rollbackLocked.
  unfoldable pub revert_all : List (Target F) → W → W
  revert_all [] w = w
  revert_all (t ∷ ts) w = elim t.pre_desired [
    | none ↦ revert_all ts w
    | some desired ↦
        let (set, w1) = sv.set_desired t.device_id desired w in
        elim set [
          | none ↦ revert_all ts w1
          | some pushed ↦ revert_all ts (publish_desired sv t.device_id pushed w1)
        ]
  ]

  unfoldable pub rollback_locked :
      Engine F W → Rollout F → List (Target F) → List (Reason F) → Engine F W
  unfolding announce
  rollback_locked e r targets why =
      let w1 = revert_all targets e.world in
      let r' = record r { state = aborted } in
      let (saved, w2) = sv.update_state r'.id aborted w1 in
      announce
        (announce (record e { active = delete r'.id e.active; world = w2 }) r' health_breached
          (reasons why))
        r' aborted_event (reasons why)

  -- tickOne behind the health check, when the stage is not in breach.
  unfoldable pub tick_healthy : Engine F W → Rollout F → Engine F W
  tick_healthy e r = elim (get_elem? r.stages r.current_stage_index) [
    | none ↦ panic e
    | some stage ↦
        let (t, w) = clock e.world in
        let e' = with_world e w in
        if is_baking t r.current_stage_started_at stage.bake_duration
        then e'
        else if nat_eq (r.current_stage_index + 1) (length r.stages)
        then complete_locked e' r
        else advance_locked e' r
  ]

  -- The counts of evaluateStageHealth and the verdict of EvaluateHealth on them.
  unfoldable pub stage_health : Rollout F → List (Target F) → W → Bool × List (Reason F) × W
  stage_health r targets w =
      let (c, w') = evaluate_stage_health sv stale_after r targets w in
      let (breached, why) =
        evaluate_health fl r.health_criteria (length targets) c.rejected c.disconnected c.errored in
      (breached, why, w')

  unfoldable pub tick_targets : Engine F W → Rollout F → List (Target F) → Engine F W
  tick_targets e r targets =
      let (breached, why, w) = stage_health r targets e.world in
      if breached
      then rollback_locked (with_world e w) r targets why
      else tick_healthy (with_world e w) r

  unfoldable pub tick_one : Engine F W → Rollout F → Engine F W
  tick_one e r =
      let (listed, w) = sv.list_targets r.id e.world in
      if is_running r.state
      then elim listed [
        | none ↦ with_world e w
        | some targets ↦ tick_targets (with_world e w) r targets
      ]
      else e

  -- One round of tickAll's loop: an id that is no longer there is passed over.
  unfoldable pub visit : Text → Engine F W → Engine F W
  visit id e = elim (lookup id e.active) [ none ↦ e | some r ↦ tick_one e r ]

  -- `for _, r := range e.active`: the order of the ids is the environment's.
  unfoldable pub tick_all : List Text → Engine F W → Engine F W
  tick_all [] e = e
  tick_all (id ∷ ids) e = tick_all ids (visit id e)
