-- ===== src/Device/Keeps.antt =====
-- What the parts of a tick leave alone of a device's readings.
use sense_grid.Common.{
  ℕ, ◌+◌, ◌≡◌, refl, ap, ◌∙◌, text_Eq, inl, inr, Bool, true, false, List, [], ◌∷◌, ◌||◌, arith,
  Text, codes, length, Float, Bool-cases, Option-cases,
}
use sense_grid.Telemetry.Schema.{Reading}
use sense_grid.Telemetry.Topics.{telemetry_topic}
use sense_grid.Fleet.Runtime.{RuntimeConfig}
use sense_grid.Device.Config.{AppliedConfig, sensor_enabled}
use sense_grid.Device.Signal.{Rand, sample}
use sense_grid.Device.Sampler.{VirtualDevice, Broker, positive}
use sense_grid.Device.Sampling.{
  note, body_of, jitter, send, publish_one, publish_all, collect, collect_temperature,
  collect_humidity, collect_accel,
}
use sense_grid.Device.Loop.{heal, on_partitioned, flaky, reconnect, skewed_now}

-- The readings that have left the loop: sent, or counted as errors.
abbrev pub settled : {F R : Type 0} → VirtualDevice F R → ℕ
settled d = d.stats.published + d.stats.publish_errors

-- What the steps other than a flush leave alone.
pub record Keeps {F R : Type 0} (d e : VirtualDevice F R) (n : ℕ) : Type 0 where
  pub pending : e.pending ≡ d.pending
  pub seq : e.seq ≡ d.seq
  pub last_seq : e.stats.last_seq ≡ d.stats.last_seq
  pub settled_more : settled e ≡ settled d + n

Keeps-refl : {F R : Type 0} (d : VirtualDevice F R) → Keeps d d 0
Keeps-refl d = record { pending = refl; seq = refl; last_seq = refl; settled_more = omega arith }

pub unmoved :
    {F R : Type 0} (d e : VirtualDevice F R)
    → e.pending ≡ d.pending
    → e.seq ≡ d.seq
    → e.stats ≡ d.stats
    → Keeps d e 0
unmoved d e h i j = record {
  pending = h;
  seq = i;
  last_seq = ap (λ s. s.last_seq) j;
  settled_more = ap (λ s. s.published + s.publish_errors) j ∙ omega arith;
}

pub Keeps-trans :
    {F R : Type 0} {d e f : VirtualDevice F R} → Keeps d e 0 → Keeps e f 0 → Keeps d f 0
Keeps-trans a b = record {
  pending = b.pending ∙ a.pending;
  seq = b.seq ∙ a.seq;
  last_seq = b.last_seq ∙ a.last_seq;
  settled_more = omega (arith, a.settled_more, b.settled_more);
}

module _ {F R W : Type 0} (fl : Float F) (rd : Rand F R) (br : Broker F W) where
  jitter-Keeps :
      (rt : RuntimeConfig F) (d : VirtualDevice F R) (w : W) → Keeps d (jitter fl rd br rt d w).0 0
  unfolding jitter
  jitter-Keeps rt d w = elim (Option-cases (positive rt.latency_jitter_ms)) [
    | inl e ↦
        rw (e, jitter)
          (record { pending = refl; seq = refl; last_seq = refl; settled_more = ground arith })
    | inr (n, e) ↦
        rw (e, jitter)
          (record { pending = refl; seq = refl; last_seq = refl; settled_more = ground arith })
  ]

  publish_one-Keeps :
      (topic : Text) (r : Reading F) (rt : RuntimeConfig F) (d : VirtualDevice F R) (w : W)
      → Keeps d (publish_one fl rd br topic r rt d w).0 1
  unfolding publish_one body_of send jitter
  publish_one-Keeps topic r rt d w = record {
    pending = ground arith;
    seq = ground arith;
    last_seq = ground arith;
    settled_more = ground arith;
  }

  pub publish_all-Keeps :
      (rs : List (Reading F)) (rt : RuntimeConfig F) (d : VirtualDevice F R) (w : W)
      → Keeps d (publish_all fl rd br rs rt d w).0 (length rs)
  unfolding publish_all
  publish_all-Keeps [] rt d w = record {
    pending = refl;
    seq = refl;
    last_seq = refl;
    settled_more = omega arith;
  }
  publish_all-Keeps (r ∷ rs) rt d w =
      let (d1, w1) = publish_one fl rd br (telemetry_topic d.device_id) r rt d w in
      let one = publish_one-Keeps (telemetry_topic d.device_id) r rt d w in
      let rest = publish_all-Keeps rs rt d1 w1 in
      record {
        pending = rest.pending ∙ one.pending;
        seq = rest.seq ∙ one.seq;
        last_seq = rest.last_seq ∙ one.last_seq;
        settled_more = omega (arith, rest.settled_more, one.settled_more);
      }

  note-Keeps : (b : Bool) (d e : VirtualDevice F R) → Keeps d e 0 → Keeps d (note fl rd br b e) 0
  unfolding note
  note-Keeps true d e k = record {
    pending = k.pending;
    seq = k.seq;
    last_seq = k.last_seq;
    settled_more = k.settled_more;
  }
  note-Keeps false d e k = k

  collect_temperature-Keeps :
      (now_ms : ℕ) (cfg : AppliedConfig F) (rt : RuntimeConfig F) (d : VirtualDevice F R) (w : W)
      → Keeps d (collect_temperature fl rd br now_ms cfg rt d w).1 0
  unfolding collect_temperature
  collect_temperature-Keeps now_ms cfg rt d w =
      let (x0, a0, s0) = sample fl rd now_ms rt.step_rate rt.anomaly_rate d.temperature in
      elim (Bool-cases (sensor_enabled fl cfg (codes "temperature"))) [
        | inl e ↦
            rw e (note-Keeps (a0) d (record d { temperature = s0 }) (unmoved d _ refl refl refl))
        | inr e ↦ rw e (Keeps-refl d)
      ]

  collect_humidity-Keeps :
      (now_ms : ℕ) (cfg : AppliedConfig F) (rt : RuntimeConfig F) (d : VirtualDevice F R) (w : W)
      → Keeps d (collect_humidity fl rd br now_ms cfg rt d w).1 0
  unfolding collect_humidity
  collect_humidity-Keeps now_ms cfg rt d w =
      let (x0, a0, s0) = sample fl rd now_ms rt.step_rate rt.anomaly_rate d.humidity in
      elim (Bool-cases (sensor_enabled fl cfg (codes "humidity"))) [
        | inl e ↦ rw e (note-Keeps (a0) d (record d { humidity = s0 }) (unmoved d _ refl refl refl))
        | inr e ↦ rw e (Keeps-refl d)
      ]

  collect_accel-Keeps :
      (now_ms : ℕ) (cfg : AppliedConfig F) (rt : RuntimeConfig F) (d : VirtualDevice F R) (w : W)
      → Keeps d (collect_accel fl rd br now_ms cfg rt d w).1 0
  unfolding collect_accel
  collect_accel-Keeps now_ms cfg rt d w =
      let (x0, a0, s0) = sample fl rd now_ms rt.step_rate rt.anomaly_rate d.accel_x in
      let (x1, a1, s1) = sample fl rd now_ms rt.step_rate rt.anomaly_rate d.accel_y in
      let (x2, a2, s2) = sample fl rd now_ms rt.step_rate rt.anomaly_rate d.accel_z in
      elim (Bool-cases (sensor_enabled fl cfg (codes "accel"))) [
        | inl e ↦ rw e (
            note-Keeps (a0 || (a1 || a2)) d (record d { accel_x = s0; accel_y = s1; accel_z = s2 })
              (unmoved d _ refl refl refl))
        | inr e ↦ rw e (Keeps-refl d)
      ]

  pub collect-Keeps :
      (now_ms : ℕ) (cfg : AppliedConfig F) (rt : RuntimeConfig F) (d : VirtualDevice F R) (w : W)
      → Keeps d (collect fl rd br now_ms cfg rt d w).1 0
  unfolding collect
  collect-Keeps now_ms cfg rt d w =
      let (ts, d1, w1) = collect_temperature fl rd br now_ms cfg rt d w in
      let (hs, d2, w2) = collect_humidity fl rd br now_ms cfg rt d1 w1 in
      Keeps-trans (collect_temperature-Keeps now_ms cfg rt d w) (
        Keeps-trans (collect_humidity-Keeps now_ms cfg rt d1 w1)
          (collect_accel-Keeps now_ms cfg rt d2 w2))

  pub skewed_now-Keeps :
      (rt : RuntimeConfig F) (d : VirtualDevice F R) (w : W)
      → Keeps d (skewed_now fl rd br rt d w).1 0
  unfolding skewed_now
  skewed_now-Keeps rt d w = record {
    pending = ground arith;
    seq = ground arith;
    last_seq = ground arith;
    settled_more = ground arith;
  }

  pub on_partitioned-Keeps :
      (d : VirtualDevice F R) (w : W) → Keeps d (on_partitioned fl rd br d w).0 0
  unfolding on_partitioned heal
  on_partitioned-Keeps d w = record {
    pending = ground arith;
    seq = ground arith;
    last_seq = ground arith;
    settled_more = ground arith;
  }

  pub flaky-Keeps :
      (rt : RuntimeConfig F) (d : VirtualDevice F R) (w : W) → Keeps d (flaky fl rd br rt d w).1 0
  unfolding flaky
  flaky-Keeps rt d w = record {
    pending = ground arith;
    seq = ground arith;
    last_seq = ground arith;
    settled_more = ground arith;
  }

  pub reconnect-Keeps : (d : VirtualDevice F R) (w : W) → Keeps d (reconnect fl rd br d w).0 0
  unfolding reconnect
  reconnect-Keeps d w = record {
    pending = ground arith;
    seq = ground arith;
    last_seq = ground arith;
    settled_more = ground arith;
  }
