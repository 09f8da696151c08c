-- ===== src/Hostagent/Agent.antt =====
-- configHandler, runSamplingLoop and collect of cmd/hostagent. The readers of the host's metrics are a
-- parameter: each fails, has nothing, or has a reading.
use sense_grid.Common.{
  ℕ, suc, ◌-◌, Bool, Option, none, some, List, [], ◌∷◌, ◌++◌, if◌then◌else◌, ◌==◌, text_Eq, Text,
  length, ℤ, Float, ok, err,
}
use sense_grid.Shadow.Types.{Reported, reporting_batched}
use sense_grid.Telemetry.Schema.{Reading, schema_version}
use sense_grid.Telemetry.Topics.{telemetry_topic, state_topic}
use sense_grid.Ingest.Handler.{milliseconds}
use sense_grid.Device.Config.{AppliedConfig}
use sense_grid.Device.Handler.{Client, at_time}
use sense_grid.Device.Sampler.{positive, is_due}
use sense_grid.Hostagent.Config.{apply_partial, sensor_enabled, to_reported, to_rejected_reported}

pub record HostReading (F : Type 0) : Type 0 where
  pub sensor_type : Text
  pub value : Option F
  pub values : Option (List (Text × F))

pub data Read (F : Type 0) : Type 0 where
  failed absent : Read F
  got : HostReading F → Read F

-- The shared configuration, the channel of intervals, which holds one, and the variables of the loop.
pub record Agent (F : Type 0) : Type 0 where
  pub cfg_state : AppliedConfig F
  pub interval_changed : Option ℤ
  pub ticker_ms : ℤ
  pub seq : ℕ
  pub pending : List (Reading F)
  pub last_flush : ℕ

pub record Machine (F W : Type 0) : Type 0 where
  pub client : Client F W
  pub is_connected : W → Bool × W
  pub new_trace_id : W → Text × W
  pub marshal : Reading F → Option Text
  pub readers : List (W → Read F × W)

-- `select { case intervalChanged <- ms: default: }`.
abbrev pub offer : ℤ → Option ℤ → Option ℤ
offer ms none = some ms
offer ms (some old) = some old

module _ {F W : Type 0} (fl : Float F) (mc : Machine F W) where
  unfoldable pub publish_reported_value : Text → Reported F → W → W
  publish_reported_value id rep w =
      let (t, w1) = mc.client.now w in
      elim (mc.client.reported.marshal (at_time fl mc.client rep t)) [
        | none ↦ w1
        | some body ↦ mc.client.publish (state_topic id) body w1
      ]

  unfoldable pub config_handler : Text → Text → Agent F → W → Agent F × W
  unfolding publish_reported_value apply_partial to_reported to_rejected_reported
  config_handler id payload a w = elim (mc.client.desired.unmarshal payload) [
    | none ↦ (a, w)
    | some d ↦ elim (apply_partial fl a.cfg_state d) [
      | err e ↦
          let rep = to_rejected_reported fl a.cfg_state d.revision (mc.client.describe e) in
          (a, publish_reported_value id rep w)
      | ok next ↦ (
        record a {
          cfg_state = next;
          interval_changed = offer next.sample_interval_ms a.interval_changed;
        },
        publish_reported_value id (to_reported fl next) w,
      )
    ]
  ]

  -- `ms := <-intervalChanged`, when there is one.
  unfoldable pub interval_turn : Agent F → Agent F
  interval_turn a = elim a.interval_changed [
    | none ↦ a
    | some ms ↦ record a { interval_changed = none; ticker_ms = ms }
  ]

  unfoldable pub collect : List (W → Read F × W) → W → List (HostReading F) × W
  collect [] w = ([], w)
  collect (reader ∷ readers) w =
      let (res, w1) = reader w in
      let (rest, w2) = collect readers w1 in (elim res [ got r ↦ r ∷ rest | _ ↦ rest ], w2)

  -- The loop over what was collected; a reading of a sensor that is off takes no number.
  unfoldable pub append_all :
      Text → AppliedConfig F → List (HostReading F) → Agent F → W → Agent F × W
  unfolding sensor_enabled
  append_all id cfg [] a w = (a, w)
  append_all id cfg (r ∷ rs) a w =
      let (t, w1) = mc.client.now w in
      let (trace, w2) = mc.new_trace_id w1 in
      let reading : Reading F = record {
        schema_version = schema_version;
        device_id = id;
        sensor_type = r.sensor_type;
        value = r.value;
        values = r.values;
        device_time_ms = milliseconds t;
        seq = suc a.seq;
        trace_id = trace;
      } in
      let on =
        append_all id cfg rs (record a { seq = suc a.seq; pending = a.pending ++ reading ∷ [] })
          w2 in
      let off = append_all id cfg rs a w in if sensor_enabled fl cfg r.sensor_type then on else off

  unfoldable pub publish_all : Text → List (Reading F) → W → W
  publish_all id [] w = w
  publish_all id (r ∷ rs) w = elim (mc.marshal r) [
    | none ↦ publish_all id rs w
    | some body ↦ publish_all id rs (mc.client.publish (telemetry_topic id) body w)
  ]

  unfoldable pub flush : Text → Agent F → W → Agent F × W
  unfolding publish_all
  flush id a w =
      let (t, w1) = mc.client.now (publish_all id a.pending w) in
      (record a { pending = []; last_flush = t }, w1)

  -- `time.Since(lastFlush)`, where flushIntervalMS asks for it.
  unfoldable pub since_flush : AppliedConfig F → Agent F → W → ℕ × W
  since_flush cfg a w = elim (positive cfg.flush_interval_ms) [
    | none ↦ (0, w)
    | some n ↦ let (t, w1) = mc.client.now w in (t - a.last_flush, w1)
  ]

  unfoldable pub flush_if_due : Text → AppliedConfig F → Agent F → W → Agent F × W
  unfolding flush since_flush
  flush_if_due id cfg a w =
      let (since, w1) = since_flush cfg a w in
      if cfg.mode == reporting_batched
      then (if is_due cfg (length a.pending) since then flush id a w1 else (a, w1))
      else flush id a w

  unfoldable pub tick : Text → Agent F → W → Agent F × W
  unfolding append_all collect flush_if_due
  tick id a w =
      let cfg = a.cfg_state in
      let (up, w1) = mc.is_connected w in
      let (rs, w2) = collect mc.readers w1 in
      let (a1, w3) = append_all id cfg rs a w2 in if up then flush_if_due id cfg a1 w3 else (a, w1)

pub data Input : Type 0 where
  configured : Text → Input
  interval_ready ticked stopped : Input

module _ {F W : Type 0} (fl : Float F) (mc : Machine F W) where
  -- One turn of the loop, or a message that arrives between two.
  unfoldable pub step : Text → Input → Agent F → W → Agent F × W
  unfolding config_handler interval_turn tick flush
  step id (configured payload) a w = config_handler fl mc id payload a w
  step id interval_ready a w = (interval_turn fl mc a, w)
  step id ticked a w = tick fl mc id a w
  step id stopped a w = flush fl mc id a w

  abbrev pub run : Text → List Input → Agent F → W → Agent F × W
  run id [] a w = (a, w)
  run id (i ∷ is) a w = let (a1, w1) = step id i a w in run id is a1 w1
