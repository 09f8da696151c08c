-- ===== src/Fleet/Runtime.antt =====
-- cmd/fleet/runtime_config.go and the configuration of cmd/fleet/config.go.
use sense_grid.Common.{ℕ, Option, none, some, Text, ℤ}

pub record FleetConfig (F : Type 0) : Type 0 where
  pub initial_target : ℤ
  pub tokens_file : Text
  pub state_dir : Text
  pub control_url : Text
  pub sample_interval : ℕ
  pub ramp_window : ℕ
  pub malformed_rate : F
  pub latency_jitter_ms : ℤ
  pub clock_skew_jitter_ms : ℤ
  pub disconnect_rate : F
  pub step_rate : F
  pub anomaly_rate : F

pub record RuntimeConfig (F : Type 0) : Type 0 where
  pub malformed_rate : F
  pub latency_jitter_ms : ℤ
  pub clock_skew_jitter_ms : ℤ
  pub disconnect_rate : F
  pub step_rate : F
  pub anomaly_rate : F

pub record ConfigPatch (F : Type 0) : Type 0 where
  pub malformed_rate : Option F
  pub latency_jitter_ms : Option ℤ
  pub clock_skew_jitter_ms : Option ℤ
  pub disconnect_rate : Option F
  pub step_rate : Option F
  pub anomaly_rate : Option F

abbrev pub runtime_config_from_fleet_config : {F : Type 0} → FleetConfig F → RuntimeConfig F
runtime_config_from_fleet_config cfg = record {
  malformed_rate = cfg.malformed_rate;
  latency_jitter_ms = cfg.latency_jitter_ms;
  clock_skew_jitter_ms = cfg.clock_skew_jitter_ms;
  disconnect_rate = cfg.disconnect_rate;
  step_rate = cfg.step_rate;
  anomaly_rate = cfg.anomaly_rate;
}

-- `if p.X != nil { next.X = *p.X }`.
abbrev pub patched : {A : Type 0} → Option A → A → A
patched none a = a
patched (some b) a = b

abbrev pub apply : {F : Type 0} → ConfigPatch F → RuntimeConfig F → RuntimeConfig F
apply p cur = record {
  malformed_rate = patched p.malformed_rate cur.malformed_rate;
  latency_jitter_ms = patched p.latency_jitter_ms cur.latency_jitter_ms;
  clock_skew_jitter_ms = patched p.clock_skew_jitter_ms cur.clock_skew_jitter_ms;
  disconnect_rate = patched p.disconnect_rate cur.disconnect_rate;
  step_rate = patched p.step_rate cur.step_rate;
  anomaly_rate = patched p.anomaly_rate cur.anomaly_rate;
}
