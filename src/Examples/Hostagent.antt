-- ===== src/Examples/Hostagent.antt =====
-- Two configurations that reach the host agent before its loop turns.
use sense_grid.Common.{ℕ, true, none, some, [], ◌∷◌, codes, pos}
use sense_grid.Device.Config.{
  AppliedConfig, apply_partial as apply_partial_for, default_applied_config as default_for,
}
use sense_grid.Hostagent.Config.{apply_partial, default_applied_config}
use sense_grid.Hostagent.Agent.{Agent, Machine}
use sense_grid.Shadow.Types.{Desired}
use sense_grid.Examples.Device.{client}

abbrev agent : Agent ℕ
agent = record {
  cfg_state = default_applied_config (pos 5000);
  interval_changed = none;
  ticker_ms = pos 5000;
  seq = 0;
  pending = [];
  last_flush = 0;
}

-- A payload is a rate.
abbrev rated : ℕ → Desired ℕ
rated rate = record {
  schema_version = codes "1.0";
  revision = rate;
  sample_rate_hz = some rate;
  enabled_sensors = none;
  batch_size = none;
  flush_interval_ms = none;
  reporting_mode = none;
}

abbrev machine : Machine ℕ ℕ
machine = record {
  client = record client {
    desired = record {
      marshal = λ d. none;
      unmarshal = λ t. elim t [ [] ↦ none | c ∷ cs ↦ some (rated c) ];
    };
  };
  is_connected = λ w. (true, w);
  new_trace_id = λ w. (codes "t", w);
  marshal = λ r. some r.sensor_type;
  readers = [];
}

abbrev sampling : ℕ → ℕ → AppliedConfig ℕ
sampling rate interval_ms = record {
  desired = rated rate;
  sample_interval_ms = pos interval_ms;
  enabled_sensors = [];
  batch_size = pos 0;
  flush_interval_ms = pos 0;
  mode = codes "continuous";
}
