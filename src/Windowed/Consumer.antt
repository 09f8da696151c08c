-- ===== src/Windowed/Consumer.antt =====
-- cmd/processor/windowed.go, and Publish of internal/alerts/publisher.go. The clocks, uuid,
-- JetStream, encoding/json and whether the database answers are parameters, as is the order of the
-- axes of a map. Metrics, spans and log lines are left out. A message is acknowledged whatever
-- happens. A message and a sweep, which run in two goroutines, are each taken as one step.
use sense_grid.Common.{
  ℕ, ◌++◌, Bool, Option, none, some, List, [], ◌∷◌, if◌then◌else◌, ◌==◌, text_Eq, Text, codes,
  Float, Codec, ok, err, ℤ, pos, negsuc,
}
use sense_grid.Telemetry.Schema.{Reading, StampedReading}
use sense_grid.Telemetry.Topics.{metrics_subject, alerts_subject}
use sense_grid.Shadow.Drift.{unix_milli}
use sense_grid.Ingest.Handler.{milliseconds}
use sense_grid.Rules.Rule.{
  Rule, zscore, rate_of_change, silence, consecutive_or_default, for_sensor,
}
use sense_grid.Anomaly.Evaluator.{Evaluator, Event, no_change, fired, cleared}
use sense_grid.Anomaly.Evaluator as Hysteresis
use sense_grid.Anomaly.Detectors.{evaluate_zscore, evaluate_rate_of_change, evaluate_silence}
use sense_grid.Alerts.Machine.{State}
use sense_grid.Alerts.Store.{Alert, Row, open_alert}
use sense_grid.Alerts.Store as Table
use sense_grid.Window.Buffer.{Window, count, mean, deviation}
use sense_grid.Window.Buffer as Buffer
use sense_grid.Window.Registry.{
  Key, Registry, MetricEvent, oldest_time, newest_time, get, put_window, last_seen_of, keys,
}

pub record AlertEvent (D : Type 0) : Type 0 where
  pub schema_version : Text
  pub alert_id : Text
  pub device_id : Text
  pub sensor_type : Text
  pub rule_name : Text
  pub severity : Text
  pub state : State
  pub detail : D
  pub timestamp_ms : ℕ

pub record Services (F D W : Type 0) : Type 0 where
  pub now : W → ℕ × W
  pub new_id : W → Text × W
  -- Whether the next query goes unanswered, and now() of it.
  pub is_down : W → Bool × W
  pub db_now : W → ℕ × W
  pub publish : Text → Text → W → Bool × W
  pub metrics : Codec (MetricEvent F)
  pub alert_events : Codec (AlertEvent D)
  pub details : Codec D
  -- The detail of a score, a threshold and a detector, and that of no JSON.
  pub detail_of : F → F → Text → D
  pub no_detail : D
  -- time.Duration.Seconds.
  pub seconds : ℕ → F

pub record Consumer (F W : Type 0) : Type 0 where
  pub registry : Registry F
  pub evaluator : Evaluator
  pub alerts : List Row
  pub world : W

-- UnixMilli, which is negative for the zero time, that of the year 1.
abbrev pub unix_milli_of : Option ℕ → ℤ
unix_milli_of none = negsuc 62135596799999
unix_milli_of (some t) = pos (milliseconds t)

abbrev pub axis_values : {F : Type 0} → Text → List (Text × F) → List (Text × F)
axis_values sensor_type [] = []
axis_values sensor_type ((axis, v) ∷ axes) =
    (sensor_type ++ codes "." ++ axis, v) ∷ axis_values sensor_type axes

unfoldable pub flatten_values : {F : Type 0} → Reading F → List (Text × F)
flatten_values r = elim r.value [
  | some v ↦ (r.sensor_type, v) ∷ []
  | none ↦ elim r.values [ none ↦ [] | some axes ↦ axis_values r.sensor_type axes ]
]

module _ {F D W : Type 0} (fl : Float F) (sv : Services F D W)
    (config : Option (List (Rule F))) where
  open sv use {now as clock, publish as send}

  unfoldable pub publish_alert : Alert D → W → W
  publish_alert a w =
      let (t, w1) = clock w in
      let encoded = sv.alert_events.marshal (record {
        schema_version = codes "1.0";
        alert_id = a.id;
        device_id = a.device_id;
        sensor_type = a.sensor_type;
        rule_name = a.rule_name;
        severity = a.severity;
        state = a.state;
        detail = a.detail;
        timestamp_ms = milliseconds t;
      }) in
      elim encoded [ none ↦ w1 | some body ↦ (send (alerts_subject a.device_id) body w1).1 ]

  unfoldable pub fire : Text → Text → Rule F → F → Consumer F W → Consumer F W
  fire device sensor rule score c =
      let (id, w1) = sv.new_id c.world in
      let (t, w2) = clock w1 in
      let (down, w3) = sv.is_down w2 in
      let (down_again, w4) = sv.is_down w3 in
      let (at, w5) = sv.db_now w4 in
      let (answer, rows) =
        open_alert sv.details sv.no_detail down down_again id device sensor rule.name rule.severity
          (sv.detail_of score rule.threshold rule.detector) t at c.alerts in
      let c' : Consumer F W = record c { alerts = rows; world = w5 } in
      elim answer [ err e ↦ c' | ok found ↦ record c' { world = publish_alert found.0 w5 } ]

  unfoldable pub resolve : Text → Text → Rule F → Consumer F W → Consumer F W
  resolve device sensor rule c =
      let (t, w1) = clock c.world in
      let (down, w2) = sv.is_down w1 in
      let (at, w3) = sv.db_now w2 in
      let (answer, rows) =
        Table.resolve sv.details sv.no_detail down device sensor rule.name t at c.alerts in
      let c' : Consumer F W = record c { alerts = rows; world = w3 } in
      elim answer [
        | err e ↦ c'
        | ok none ↦ c'
        | ok (some a) ↦ record c' { world = publish_alert a w3 }
      ]

  unfoldable pub apply_event : Event → Text → Text → Rule F → F → Consumer F W → Consumer F W
  apply_event no_change device sensor rule score c = c
  apply_event fired device sensor rule score c = fire device sensor rule score c
  apply_event cleared device sensor rule score c = resolve device sensor rule c

  unfoldable pub apply_evaluation : Text → Text → Rule F → Bool → F → Consumer F W → Consumer F W
  apply_evaluation device sensor rule violating score c =
      let (evaluator, event) =
        Hysteresis.update c.evaluator
          (record { device_id = device; sensor_type = sensor; rule_name = rule.name }) violating
          (consecutive_or_default rule) in
      apply_event event device sensor rule score (record c { evaluator = evaluator })

  -- The body of the loop over the rules of a sample.
  unfoldable pub evaluate_rule : Text → Text → F → Window F → Rule F → Consumer F W → Consumer F W
  evaluate_rule device sensor value w rule c =
      let (zv, z) = evaluate_zscore fl value w rule in
      let (rv, d) = evaluate_rate_of_change fl w rule in
      if rule.detector == silence
      then c
      else if rule.detector == zscore
      then apply_evaluation device sensor rule zv z c
      else if rule.detector == rate_of_change
      then apply_evaluation device sensor rule rv d c
      else c

  unfoldable pub evaluate_rules :
      Text → Text → F → Window F → List (Rule F) → Consumer F W → Consumer F W
  evaluate_rules device sensor value w [] c = c
  evaluate_rules device sensor value w (r ∷ rs) c =
      evaluate_rules device sensor value w rs (evaluate_rule device sensor value w r c)

  unfoldable pub publish_metric : Text → Text → Window F → Text → W → W
  publish_metric device sensor w trace_id world =
      let encoded = sv.metrics.marshal (record {
        schema_version = codes "1.0";
        device_id = device;
        sensor_type = sensor;
        mean = mean fl w;
        std_dev = deviation fl w;
        count = count fl w;
        ewma = w.ewma.value;
        window_start_ms = unix_milli_of (oldest_time w.buf);
        window_end_ms = unix_milli_of (newest_time w.buf);
        trace_id = trace_id;
      }) in
      elim encoded [ none ↦ world | some body ↦ (send (metrics_subject device) body world).1 ]

  unfoldable pub process_sample : Text → ℕ → ℕ → Text → Text × F → Consumer F W → Consumer F W
  process_sample device device_time seq trace_id (sensor, value) c =
      let key : Key = record { device_id = device; sensor_type = sensor } in
      let (t, w1) = clock c.world in
      let (window, touched) = get fl c.registry key t in
      let (window', fresh) = Buffer.insert fl window device_time value seq in
      let w2 = publish_metric device sensor window' trace_id w1 in
      if fresh
      then evaluate_rules device sensor value window' (for_sensor config sensor)
          (record c { registry = put_window touched key window'; world = w2 })
      else record c { registry = touched; world = w1 }

  unfoldable pub process_samples :
      Text → ℕ → ℕ → Text → List (Text × F) → Consumer F W → Consumer F W
  process_samples device device_time seq trace_id [] c = c
  process_samples device device_time seq trace_id (s ∷ ss) c =
      process_samples device device_time seq trace_id ss
        (process_sample device device_time seq trace_id s c)

  unfoldable pub on_message : Option (StampedReading F) → Consumer F W → Consumer F W
  on_message none c = c
  on_message (some sr) c =
      let r = sr.reading in
      process_samples r.device_id (unix_milli r.device_time_ms) r.seq r.trace_id (flatten_values r)
        c

  unfoldable pub silence_rules : Key → Option ℕ → ℕ → List (Rule F) → Consumer F W → Consumer F W
  silence_rules key last_seen t [] c = c
  silence_rules key last_seen t (r ∷ rs) c =
      let (violating, gap) = evaluate_silence fl last_seen t r in
      silence_rules key last_seen t rs (
        if r.detector == silence
        then apply_evaluation key.device_id key.sensor_type r violating (sv.seconds gap) c
        else c)

  -- The loop of sweepSilence over the keys; one that is gone is passed over.
  unfoldable pub sweep_keys : ℕ → List Key → Consumer F W → Consumer F W
  sweep_keys t [] c = c
  sweep_keys t (k ∷ ks) c = sweep_keys t ks (elim (last_seen_of c.registry k) [
    | none ↦ c
    | some seen ↦ silence_rules k (some seen) t (for_sensor config k.sensor_type) c
  ])

  unfoldable pub sweep_silence : Consumer F W → Consumer F W
  sweep_silence c =
      let (t, w) = clock c.world in sweep_keys t (keys c.registry) (record c { world = w })
