-- ===== src/Device/Sampler.antt =====
-- virtualDevice of cmd/fleet/device.go: its counters, collect, publishOne and the loop of sampleLoop, of
-- which a tick and a partition command are each one step. The MQTT client, the clock, encoding/json
-- and the runtime configuration, which the manager changes meanwhile, are parameters; `connect` says
-- whether it succeeded, and whether the handler that sets `connected` has run by then.
use sense_grid.Common.{
  of_milliseconds, not, ltb_ℤ, ℕ, zero, suc, ◌+◌, ◌-◌, ◌*◌, Bool, true, false, ◌||◌, Option, none,
  some, List, [], ◌∷◌, leb, text_Eq, Text, ℤ, pos, Float,
}
use sense_grid.Telemetry.Schema.{Reading}
use sense_grid.Fleet.Runtime.{RuntimeConfig}
use sense_grid.Device.Config.{AppliedConfig, default_applied_config}
use sense_grid.Device.Signal.{Rand, SensorSignal, new_sensor_signal}

pub record DeviceStats : Type 0 where
  pub connected : Bool
  pub partitioned : Bool
  pub published : ℕ
  pub publish_errors : ℕ
  pub malformed_sent : ℕ
  pub anomalies_sent : ℕ
  pub reconnects : ℕ
  pub last_seq : ℕ

-- The device and the variables of its loop. A time that was never set is none; `ticker` is the period
-- of the ticker, in nanoseconds, and `panicked` says that a period was not positive, at which
-- NewTicker and Reset end the process.
pub record VirtualDevice (F R : Type 0) : Type 0 where
  pub device_id : Text
  pub cfg_state : AppliedConfig F
  pub stats : DeviceStats
  pub temperature : SensorSignal F R
  pub humidity : SensorSignal F R
  pub accel_x : SensorSignal F R
  pub accel_y : SensorSignal F R
  pub accel_z : SensorSignal F R
  pub rnd : R
  pub seq : ℕ
  pub ticker : ℤ
  pub panicked : Bool
  pub pending : List (Reading F)
  pub last_flush : ℕ
  pub partitioned : Bool
  pub heal_at : ℕ
  pub last_reconnect_attempt : Option ℕ

pub record Broker (F W : Type 0) : Type 0 where
  pub now : W → ℕ × W
  pub connect : W → Bool × Bool × W
  pub disconnect : W → W
  pub is_connected : W → Bool × W
  pub publish : Text → Text → W → W
  pub sleep : ℕ → W → W
  pub new_trace_id : W → Text × W
  pub marshal : Reading F → Option Text
  pub load_runtime : W → RuntimeConfig F × W

abbrev pub no_stats : DeviceStats
no_stats = record {
  connected = false;
  partitioned = false;
  published = 0;
  publish_errors = 0;
  malformed_sent = 0;
  anomalies_sent = 0;
  reconnects = 0;
  last_seq = 0;
}

abbrev pub with_stats :
    {F R : Type 0} → (DeviceStats → DeviceStats) → VirtualDevice F R → VirtualDevice F R
with_stats f d = record d { stats = f d.stats }

abbrev pub record_anomaly : DeviceStats → DeviceStats
record_anomaly s = record s { anomalies_sent = s.anomalies_sent + 1 }

abbrev pub record_publish_error : DeviceStats → DeviceStats
record_publish_error s = record s { publish_errors = s.publish_errors + 1 }

abbrev pub record_published : DeviceStats → DeviceStats
record_published s = record s { published = s.published + 1 }

abbrev pub record_malformed : DeviceStats → DeviceStats
record_malformed s = record s { malformed_sent = s.malformed_sent + 1 }

-- A reconnection that succeeded.
abbrev pub record_reconnect : Bool → DeviceStats → DeviceStats
record_reconnect set s = record s { reconnects = s.reconnects + 1; connected = s.connected || set }

abbrev pub set_connected : Bool → DeviceStats → DeviceStats
set_connected b s = record s { connected = b }

-- The readings of a tick get the next numbers, in order.
abbrev pub number : {F : Type 0} → ℕ → List (Reading F) → List (Reading F)
number seq [] = []
number seq (r ∷ rs) = record r { seq = suc seq } ∷ number (suc seq) rs

-- `rt.ClockSkewJitterMS > 0` and the like: none, or the positive value.
abbrev pub positive : ℤ → Option ℕ
positive (pos zero) = none
positive (pos (suc n)) = some (suc n)
positive (ℤ.negsuc n) = none

abbrev pub reconnect_backoff : ℕ
reconnect_backoff = 3000000000

-- `time.Since(last) >= reconnectBackoff`.
abbrev pub may_reconnect : ℕ → Option ℕ → Bool
may_reconnect t none = true
may_reconnect t (some last) = leb reconnect_backoff (t - last)

-- `sizeHit || timeHit`.
abbrev pub is_due : {F : Type 0} → AppliedConfig F → ℕ → ℕ → Bool
is_due cfg pending since =
    elim (positive cfg.batch_size) [ none ↦ false | some n ↦ leb n pending ]
    || elim (positive cfg.flush_interval_ms) [
      | none ↦ false
      | some n ↦ not (ltb_ℤ (pos since) (of_milliseconds (pos n)))
    ]

module _ {F R : Type 0} (fl : Float F) (rd : Rand F R) where
  open fl use {of_int, nil}

  abbrev pub hundredths : ℕ → F
  hundredths n = fl.div (of_int n) (of_int 100)

  -- newVirtualDevice, with the variables that sampleLoop starts with at time `t`.
  unfoldable pub new_virtual_device : ℕ → Text → ℤ → ℕ → VirtualDevice F R
  unfolding new_sensor_signal default_applied_config
  new_virtual_device idx id interval_ms t =
      let signal = λ (k : ℕ). new_sensor_signal fl rd (pos (idx * 10 + k)) in
      record {
        device_id = id;
        cfg_state = default_applied_config interval_ms;
        stats = no_stats;
        temperature = signal 1 (of_int 22) (of_int 3) (of_int 60000) (hundredths 5) (hundredths 30);
        humidity =
            signal 2 (of_int 45) (of_int 10) (of_int 90000) (fl.sub nil (hundredths 2)) (of_int 1);
        accel_x = signal 3 nil (hundredths 30) (of_int 5000) nil (hundredths 5);
        accel_y = signal 4 nil (hundredths 30) (of_int 6000) nil (hundredths 5);
        accel_z = signal 5 (hundredths 980) (hundredths 10) (of_int 7000) nil (hundredths 3);
        rnd = rd.new_source (pos (idx * 7919 + 13));
        seq = 0;
        ticker = of_milliseconds interval_ms;
        panicked = not (ltb_ℤ (pos 0) (of_milliseconds interval_ms));
        pending = [];
        last_flush = t;
        partitioned = false;
        heal_at = 0;
        last_reconnect_attempt = none;
      }
