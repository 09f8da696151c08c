-- ===== src/Examples/Memory.antt =====
-- Services in memory, on which the engine can be run: a list of devices, the desired configurations
-- and the recorded targets. Each reading of the clock is one later than the last.
use sense_grid.Common.{
  pos, ℕ, ◌+◌, Bool, true, none, some, List, [], ◌∷◌, text_Eq, Text, codes, lookup, insert,
}
use sense_grid.Shadow.Types.{Desired, stored}
use sense_grid.Rollout.Types.{Rollout, running, Target, Device}
use sense_grid.Rollout.Services.{Services}

pub record Memory : Type 0 where
  pub desired : List (Text × Desired ℕ)
  pub recorded : List (Target ℕ)
  pub clock : ℕ

abbrev pub plain_config : Desired ℕ
plain_config = record {
  schema_version = codes "1.0";
  revision = 0;
  sample_rate_hz = some 5;
  enabled_sensors = none;
  batch_size = none;
  flush_interval_ms = none;
  reporting_mode = none;
}

abbrev pub memory : List Device → Bool → Services ℕ Memory
memory devices saves = record {
  set_desired = λ id d w. (some (stored d), record w { desired = insert id (stored d) w.desired });
  get_desired = λ id w.
      (elim (lookup id w.desired) [ none ↦ some (plain_config, 0) | some d ↦ some (d, 1) ], w);
  get_reported = λ id w. (some none, w);
  publish_desired = none;
  list_devices = λ w. (some devices, w);
  firing_count = none;
  create = λ r w. (true, w);
  get = λ id w. (some none, w);
  list = λ w. (some [], w);
  list_non_terminal = λ w. (some [], w);
  update_state = λ id s w. (saves, w);
  advance_stage = λ id i t w. (true, w);
  record_target = λ id t w. (true, record w { recorded = t ∷ w.recorded });
  list_targets = λ id w. (some w.recorded, w);
  publish_event = none;
  now = λ w. (w.clock, record w { clock = w.clock + 1 });
  new_id = λ w. (codes "r1", w);
}

abbrev pub d1 : Device
d1 = record { id = codes "a"; device_type = codes "node"; last_seen = some 0 }

abbrev pub d2 : Device
d2 = record { id = codes "b"; device_type = codes "node"; last_seen = some 0 }

abbrev pub empty_memory : Memory
empty_memory = record { desired = []; recorded = []; clock = 1 }

-- Two stages over the devices of the type "node".
abbrev pub plan : Rollout ℕ
plan = record {
  id = codes "";
  name = codes "faster";
  cohort = record { device_type = codes "node"; device_ids = [] };
  desired_config = record plain_config { sample_rate_hz = some 9 };
  stages =
      record { percent = 50; bake_duration = pos 0 }
      ∷ record { percent = 100; bake_duration = pos 0 }
      ∷ [];
  health_criteria = record { max_error_rate = 0; max_disconnect_rate = 0; max_rejection_rate = 0 };
  state = running;
  current_stage_index = 0;
  current_stage_started_at = 0;
  created_at = 0;
  updated_at = 0;
}
