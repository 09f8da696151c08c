-- ===== src/Device/Sampling.antt =====
-- The sampling loop of cmd/fleet/device.go: publishOne, collect and sampleLoop.
use sense_grid.Common.{
  ℕ, zero, suc, ◌+◌, ◌-◌, ◌*◌, Bool, ◌||◌, Option, none, some, List, [], ◌∷◌, ◌++◌, ltb,
  if◌then◌else◌, text_Eq, Text, codes, length, take, Float,
}
use sense_grid.Telemetry.Schema.{Reading, schema_version}
use sense_grid.Telemetry.Topics.{telemetry_topic}
use sense_grid.Fleet.Runtime.{RuntimeConfig}
use sense_grid.Device.Config.{AppliedConfig, sensor_enabled}
use sense_grid.Device.Signal.{Rand, chance, sample}
use sense_grid.Device.Sampler.{
  VirtualDevice, Broker, with_stats, record_anomaly, record_publish_error, record_published,
  record_malformed, positive,
}

module _ {F R W : Type 0} (fl : Float F) (rd : Rand F R) (br : Broker F W) where
  open br use {now as clock}

  abbrev pub bytes : Option Text → Text
  bytes none = []
  bytes (some body) = body

  -- `body[:len(body)-10]` of a long body, "{" for another.
  abbrev pub truncated : Text → Text
  truncated body = if ltb 10 (length body) then take (length body - 10) body else codes "{"

  unfoldable pub malformed_payload : Reading F → R → Text × R
  malformed_payload r rnd =
      let (kind, rnd1) = rd.intn 3 rnd in
      (
        elim kind [
          | zero ↦ truncated (bytes (br.marshal r))
          | suc zero ↦ bytes (br.marshal (record r { schema_version = codes "0.9" }))
          | suc (suc n) ↦ bytes (br.marshal (record r { device_id = [] }))
        ],
        rnd1,
      )

  -- What publishOne sends: none where encoding/json answers an error.
  unfoldable pub body_of :
      Reading F → RuntimeConfig F → VirtualDevice F R → Option Text × VirtualDevice F R
  unfolding malformed_payload chance
  body_of r rt d =
      let (bad, rnd1) = chance fl rd rt.malformed_rate d.rnd in
      let (body, rnd2) = malformed_payload r rnd1 in
      if bad
      then (some body, with_stats record_malformed (record d { rnd = rnd2 }))
      else (br.marshal r, record d { rnd = rnd1 })

  unfoldable pub jitter : RuntimeConfig F → VirtualDevice F R → W → VirtualDevice F R × W
  jitter rt d w = elim (positive rt.latency_jitter_ms) [
    | none ↦ (d, w)
    | some n ↦
        let (ms, rnd1) = rd.intn (n + 1) d.rnd in
        (record d { rnd = rnd1 }, br.sleep (ms * 1000000) w)
  ]

  -- The end of publishOne: a reading that cannot be sent is counted.
  unfoldable pub send : Text → Option Text → VirtualDevice F R → W → VirtualDevice F R × W
  send topic none d w = (with_stats record_publish_error d, w)
  send topic (some body) d w =
      let (up, w1) = br.is_connected w in
      if up
      then (with_stats record_published d, br.publish topic body w1)
      else (with_stats record_publish_error d, w1)

  unfoldable pub publish_one :
      Text → Reading F → RuntimeConfig F → VirtualDevice F R → W → VirtualDevice F R × W
  unfolding body_of jitter send
  publish_one topic r rt d w =
      let (d1, w1) = jitter rt d w in let (body, d2) = body_of r rt d1 in send topic body d2 w1

  unfoldable pub publish_all :
      List (Reading F) → RuntimeConfig F → VirtualDevice F R → W → VirtualDevice F R × W
  unfolding publish_one
  publish_all [] rt d w = (d, w)
  publish_all (r ∷ rs) rt d w =
      let (d1, w1) = publish_one (telemetry_topic d.device_id) r rt d w in publish_all rs rt d1 w1

  unfoldable pub flush : VirtualDevice F R → W → VirtualDevice F R × W
  unfolding publish_all
  flush d w =
      let (rt, w1) = br.load_runtime w in
      let (d1, w2) = publish_all d.pending rt d w1 in
      let (t, w3) = clock w2 in (record d1 { pending = []; last_flush = t }, w3)

  abbrev pub reading_of : Text → Text → Option F → Option (List (Text × F)) → ℕ → Text → Reading F
  reading_of id sensor_type value values now_ms trace_id = record {
    schema_version = schema_version;
    device_id = id;
    sensor_type = sensor_type;
    value = value;
    values = values;
    device_time_ms = now_ms;
    seq = 0;
    trace_id = trace_id;
  }

  unfoldable pub note : Bool → VirtualDevice F R → VirtualDevice F R
  note anomaly d = if anomaly then with_stats record_anomaly d else d

  unfoldable pub collect_temperature :
      ℕ
      → AppliedConfig F
      → RuntimeConfig F
      → VirtualDevice F R
      → W
      → List (Reading F) × VirtualDevice F R × W
  unfolding sensor_enabled sample note
  collect_temperature now_ms cfg rt d w =
      let (v, anomaly, s) = sample fl rd now_ms rt.step_rate rt.anomaly_rate d.temperature in
      let (id, w1) = br.new_trace_id w in
      if sensor_enabled fl cfg (codes "temperature")
      then (
        reading_of d.device_id (codes "temperature") (some v) none now_ms id ∷ [],
        note anomaly (record d { temperature = s }),
        w1,
      )
      else ([], d, w)

  unfoldable pub collect_humidity :
      ℕ
      → AppliedConfig F
      → RuntimeConfig F
      → VirtualDevice F R
      → W
      → List (Reading F) × VirtualDevice F R × W
  unfolding sensor_enabled sample note
  collect_humidity now_ms cfg rt d w =
      let (v, anomaly, s) = sample fl rd now_ms rt.step_rate rt.anomaly_rate d.humidity in
      let (id, w1) = br.new_trace_id w in
      if sensor_enabled fl cfg (codes "humidity")
      then (
        reading_of d.device_id (codes "humidity") (some v) none now_ms id ∷ [],
        note anomaly (record d { humidity = s }),
        w1,
      )
      else ([], d, w)

  unfoldable pub collect_accel :
      ℕ
      → AppliedConfig F
      → RuntimeConfig F
      → VirtualDevice F R
      → W
      → List (Reading F) × VirtualDevice F R × W
  unfolding sensor_enabled sample note
  collect_accel now_ms cfg rt d w =
      let (x, ax, sx) = sample fl rd now_ms rt.step_rate rt.anomaly_rate d.accel_x in
      let (y, ay, sy) = sample fl rd now_ms rt.step_rate rt.anomaly_rate d.accel_y in
      let (z, az, sz) = sample fl rd now_ms rt.step_rate rt.anomaly_rate d.accel_z in
      let (id, w1) = br.new_trace_id w in
      let values = (codes "x", x) ∷ (codes "y", y) ∷ (codes "z", z) ∷ [] in
      if sensor_enabled fl cfg (codes "accel")
      then (
        reading_of d.device_id (codes "accel") none (some values) now_ms id ∷ [],
        note (ax || (ay || az)) (record d { accel_x = sx; accel_y = sy; accel_z = sz }),
        w1,
      )
      else ([], d, w)

  unfoldable pub collect :
      ℕ
      → AppliedConfig F
      → RuntimeConfig F
      → VirtualDevice F R
      → W
      → List (Reading F) × VirtualDevice F R × W
  unfolding collect_temperature collect_humidity collect_accel
  collect now_ms cfg rt d w =
      let (ts, d1, w1) = collect_temperature now_ms cfg rt d w in
      let (hs, d2, w2) = collect_humidity now_ms cfg rt d1 w1 in
      let (as_, d3, w3) = collect_accel now_ms cfg rt d2 w2 in (ts ++ hs ++ as_, d3, w3)
