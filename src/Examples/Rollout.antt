-- ===== src/Examples/Rollout.antt =====
-- A rollout in two stages over two devices, in memory.
use sense_grid.Common.{
  ℕ, ◌≡◌, refl, true, false, none, some, [], ◌∷◌, arith, codes, Text, lookup, text_Eq, err,
}
use sense_grid.Shadow.Types.{Reported}
use sense_grid.Rollout.Types.{Rollout, paused}
use sense_grid.Rollout.Health.{evaluate_health}
use sense_grid.Rollout.Services.{Services}
use sense_grid.Rollout.Signals.{
  publish, publish_to, evaluate_stage_health, count_unhealthy, count_errored,
}
use sense_grid.Rollout.Engine.{
  Engine, tick_one, tick_all, visit, apply_stage, announce, advance_locked, tick_targets,
  tick_healthy, stage_health,
}
use sense_grid.Rollout.Commands.{pause, store_failed}
use sense_grid.Rollout.Lifecycle.{IsLive, Inv}
use sense_grid.Rollout.Ticks.{IsNext, tick_all-IsNext}
use sense_grid.Rollout.Engine.{push_all, push_config}
use sense_grid.Rollout.Cohort.{stage_targets, select_cohort, bucket}
use sense_grid.Rollout.Signals.{publish_desired}
use sense_grid.Rollout.Termination.{IsUnhindered, due_at, is_due, is_baked, visits, tick_all-ends}
use sense_grid.Rollout.Failures.{pause_failed-halts}
use sense_grid.Examples.Window.{whole}
use sense_grid.Examples.Memory.{Memory, memory, d1, d2, empty_memory, plan}

abbrev reported : Reported ℕ
reported = record {
  schema_version = codes "1.0";
  applied_revision = 3;
  rejected = false;
  rejected_revision = 0;
  reject_reason = [];
  sample_rate_hz = none;
  enabled_sensors = none;
  batch_size = none;
  flush_interval_ms = none;
  reporting_mode = none;
  reported_at_ms = 2;
}

abbrev devices_two : Services ℕ Memory
devices_two = memory (d1 ∷ d2 ∷ []) true

abbrev r1 : Text
r1 = codes "r1"

-- The plan, as the engine holds it at its first stage.
abbrev held : Rollout ℕ
held = record plan { id = r1 }

abbrev holding : Rollout ℕ → Engine ℕ Memory
holding r = record { active = (r1, r) ∷ []; world = empty_memory; panicked = false }

abbrev halted : Rollout ℕ
halted = record held { state = paused }

held-IsLive : IsLive held
held-IsLive = record { unfinished = refl; stage_exists = omega arith }

holding-Inv : Inv (holding held)
holding-Inv = record { live = (refl, held-IsLive, tt); no_panic = refl }

abbrev broken_store : Services ℕ Memory
broken_store = memory (d1 ∷ d2 ∷ []) false

pause_failed-halts_example :
    ((pause whole broken_store 10 (holding held) r1).0 ≡ err store_failed)
    × (lookup r1
          (tick_all whole broken_store 10
            (r1 ∷ [])
            (pause whole broken_store 10 (holding held) r1).1).active
        ≡ some halted)
pause_failed-halts_example =
    pause_failed-halts whole broken_store 10 (holding held) r1 held (r1 ∷ []) holding-Inv refl refl
      refl

abbrev advanced : Rollout ℕ
advanced = record held { current_stage_index = 1; current_stage_started_at = 3 }

-- No target is unhealthy and the first stage has baked.
ticked : lookup r1 (tick_all whole devices_two 10 (r1 ∷ []) (holding held)).active ≡ some advanced
unfolding tick_all visit tick_one tick_targets stage_health evaluate_stage_health evaluate_health
    tick_healthy advance_locked apply_stage announce publish publish_to count_unhealthy
    count_errored
ticked = refl

tick_all-IsNext_example : IsNext held advanced
tick_all-IsNext_example =
    tick_all-IsNext whole devices_two 10 (r1 ∷ []) (holding held) r1 held advanced holding-Inv
      (refl, tt) refl ticked

-- Both visits find the rollout due.
free : IsUnhindered whole devices_two 10 r1 (r1 ∷ r1 ∷ []) (holding held)
unfolding IsUnhindered due_at is_due is_baked visit tick_one tick_targets stage_health
    evaluate_stage_health evaluate_health tick_healthy advance_locked apply_stage announce publish
    publish_to count_unhealthy count_errored push_all stage_targets select_cohort bucket push_config
    publish_desired
free = (refl, (refl, tt))

twice : visits r1 (r1 ∷ r1 ∷ []) ≡ 2
unfolding visits
twice = refl

tick_all-ends_example :
    lookup r1 (tick_all whole devices_two 10 (r1 ∷ r1 ∷ []) (holding held)).active ≡ none
tick_all-ends_example =
    tick_all-ends whole devices_two 10 (r1 ∷ r1 ∷ []) (holding held) r1 held holding-Inv refl free
      (omega (arith, twice))
