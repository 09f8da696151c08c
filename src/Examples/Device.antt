-- ===== src/Examples/Device.antt =====
-- A simulated device over whole numbers, whose world is a clock that advances by a second with each reading of it.
use sense_grid.Common.{ℕ, ◌+◌, refl, true, none, some, List, [], ◌∷◌, Text, codes, pos}
use sense_grid.Shadow.Types.{Desired}
use sense_grid.Fleet.Runtime.{RuntimeConfig}
use sense_grid.Device.Config.{AppliedConfig, known_sensors, default_applied_config}
use sense_grid.Device.Handler.{Client, run_config}
use sense_grid.Device.Validity.{IsValid}
use sense_grid.Device.Messages.{run_config-default-IsValid}
use sense_grid.Device.Signal.{Rand}
use sense_grid.Device.Sampler.{Broker}
use sense_grid.Device.Loop.{
  Input, ticked, partition_for, on_connect, on_connection_lost, configured,
}
use sense_grid.Examples.Window.{whole}

-- Batches of two, of the temperature only.
abbrev pub wanted : Text → Desired ℕ
wanted sensor = record {
  schema_version = codes "1.0";
  revision = 7;
  sample_rate_hz = some 4;
  enabled_sensors = some (sensor ∷ []);
  batch_size = some (pos 2);
  flush_interval_ms = none;
  reporting_mode = some (codes "batched");
}

-- A payload is the name of a sensor.
abbrev pub client : Client ℕ ℕ
client = record {
  now = λ w. (w, w + 1000000000);
  publish = λ topic body w. w + 1;
  desired = record {
    marshal = λ d. none;
    unmarshal = λ t. elim t [ [] ↦ none | c ∷ cs ↦ some (wanted (c ∷ cs)) ];
  };
  reported = record { marshal = λ r. some r.reject_reason; unmarshal = λ t. none };
  describe = λ e. codes "refused";
}

run_config-default-IsValid_example :
    IsValid known_sensors
      (run_config whole client known_sensors
        (codes "d1")
        ([] ∷ codes "temperature" ∷ codes "cpu" ∷ [])
        (default_applied_config (pos 2000))
        0).0
run_config-default-IsValid_example =
    run_config-default-IsValid whole client known_sensors (codes "d1")
      ([] ∷ codes "temperature" ∷ codes "cpu" ∷ []) (pos 2000) 0 refl

abbrev pub applied : AppliedConfig ℕ
applied = record {
  desired = wanted (codes "accel");
  sample_interval_ms = pos 250;
  enabled_sensors = codes "accel" ∷ [];
  batch_size = pos 2;
  flush_interval_ms = pos 0;
  mode = codes "batched";
}

abbrev pub dice : Rand ℕ ℕ
dice = record {
  new_source = λ seed. 1;
  float64 = λ r. (r, r + 1);
  norm_float64 = λ r. (r, r + 1);
  intn = λ n r. (0, r + 1);
  sin = λ x. x;
  pi = 3;
}

-- Some payloads are malformed, and there is jitter.
abbrev pub rough : RuntimeConfig ℕ
rough = record {
  malformed_rate = 2;
  latency_jitter_ms = pos 5;
  clock_skew_jitter_ms = pos 5;
  disconnect_rate = 0;
  step_rate = 1;
  anomaly_rate = 1;
}

abbrev pub broker : Broker ℕ ℕ
broker = record {
  now = λ w. (w, w + 1000000000);
  connect = λ w. (true, true, w);
  disconnect = λ w. w;
  is_connected = λ w. (true, w);
  publish = λ topic body w. w;
  sleep = λ ns w. w + ns;
  new_trace_id = λ w. (codes "t", w);
  marshal = λ r. some r.sensor_type;
  load_runtime = λ w. (rough, w);
}

abbrev pub turns : List (Input ℕ)
turns =
    on_connect
    ∷ ticked
    ∷ configured applied
    ∷ ticked
    ∷ on_connection_lost
    ∷ ticked
    ∷ partition_for 5
    ∷ ticked
    ∷ ticked
    ∷ []
