-- ===== src/Ingest/Handler.antt =====
-- cmd/ingest/handler.go. The clock, JetStream and encoding/json are parameters, uuid.Parse too.
-- Spans, metrics and log lines are left out. What the client is told is whether the message was
-- acknowledged.
use sense_grid.Common.{
  ℕ, ◌/◌, ◌⊎◌, inl, inr, Bool, true, false, none, some, List, if◌then◌else◌, ◌==◌, text_Eq, Text,
  Codec,
}
use sense_grid.Telemetry.Schema.{Reading, StampedReading, Invalid, validate}
use sense_grid.Telemetry.Topics.{device_id_from_topic, jetstream_subject, dlq_subject}
use sense_grid.Ingest.Limiter.{Buckets, allow_device}

pub data Reason : Type 0 where
  unrecognized_topic invalid_json mismatched_device : Reason
  schema_validation : Invalid → Reason

-- The record that goes to the dead-letter queue.
pub record DlqRecord : Type 0 where
  pub topic : Text
  pub payload : Text
  pub reason : Reason
  pub received_at : ℕ

-- What the handler is built against: `publish` says whether JetStream answered without an error.
pub record Services (F W : Type 0) : Type 0 where
  pub now : W → ℕ × W
  pub publish : Text → Text → W → Bool × W
  pub readings : Codec (Reading F)
  pub stamped : Codec (StampedReading F)
  pub dlq_records : Codec DlqRecord
  pub is_uuid : Text → Bool

-- time.Time.UnixMilli of a time in nanoseconds.
abbrev pub milliseconds : ℕ → ℕ
milliseconds t = t / 1000000

module _ {F W L : Type 0} (sv : Services F W) (b : Buckets L) where
  open sv use {now as clock, publish as send}

  unfoldable pub publish_dlq : Text → Text → Reason → W → W
  publish_dlq topic payload reason w =
      let (t, w1) = clock w in
      let encoded =
        sv.dlq_records.marshal
          (record { topic = topic; payload = payload; reason = reason; received_at = t }) in
      elim encoded [ none ↦ w1 | some body ↦ (send dlq_subject body w1).1 ]

  -- Why the message is no reading of the device whose topic it came on, or that reading.
  unfoldable pub checked : Text → Text → Reason ⊎ (Text × Reading F)
  checked topic payload = elim (device_id_from_topic topic) [
    | none ↦ inl unrecognized_topic
    | some device_id ↦ elim (sv.readings.unmarshal payload) [
      | none ↦ inl invalid_json
      | some reading ↦ elim (validate sv.is_uuid reading) [
        | some why ↦ inl (schema_validation why)
        | none ↦
            if reading.device_id == device_id
            then inr (device_id, reading)
            else inl mismatched_device
      ]
    ]
  ]

  -- The tail of handle, for a reading that is let through: stamped at t and published.
  unfoldable pub forward : Text → Reading F → ℕ → W → Bool × W
  forward device_id reading t w =
      elim (sv.stamped.marshal (record { reading = reading; ingest_time_ms = milliseconds t })) [
        | none ↦ (false, w)
        | some body ↦ send (jetstream_subject device_id) body w
      ]

  -- The answer says whether the message is acknowledged.
  unfoldable pub handle : Text → Text → List (Text × L) → W → Bool × List (Text × L) × W
  handle topic payload limiters w =
      let (t, w1) = clock w in
      elim (checked topic payload) [
        | inl reason ↦ (true, limiters, publish_dlq topic payload reason w1)
        | inr (device_id, reading) ↦
            let (t', w2) = clock w1 in
            let (allowed, limiters') = allow_device b t' device_id limiters in
            let (published, w3) = forward device_id reading t w2 in
            if allowed then (published, limiters', w3) else (true, limiters', w2)
      ]
