-- ===== src/Examples/Ingest.antt =====
-- One reading on its way to JetStream, which is a list of what was published.
use sense_grid.Common.{
  ℕ, ◌-◌, ◌≡◌, ◌↔◌, ◌⊎◌, refl, inl, inr, Bool, true, false, none, some, List, [], ◌∷◌, ltb, Text,
  codes, In, text_Eq,
}
use sense_grid.Telemetry.Schema.{Reading, IsValid, validate}
use sense_grid.Telemetry.Split.{IsPart, split}
use sense_grid.Telemetry.Topics.{slash, telemetry_topic, jetstream_subject, device_id_from_topic}
use sense_grid.Ingest.Limiter.{Buckets, allow_device}
use sense_grid.Ingest.Handler.{Services, Reason, checked, forward, handle}
use sense_grid.Ingest.Delivery.{StreamLaws, checked-inr_iff, handle-acknowledged}

abbrev pub reading : Reading ℕ
reading = record {
  schema_version = codes "1.0";
  device_id = codes "d1";
  sensor_type = codes "cpu";
  value = some 7;
  values = none;
  device_time_ms = 3;
  seq = 1;
  trace_id = codes "0123456789abcdef0123456789abcdef";
}

-- Every id that is not empty.
abbrev any_id : Text → Bool
any_id [] = false
any_id (b ∷ t) = true

abbrev Published : Type 0
Published = List (Text × Text)

abbrev stream : Services ℕ Published
stream = record {
  now = λ w. (5000000, w);
  publish = λ subject body w. (true, (subject, body) ∷ w);
  readings = record { marshal = λ r. some (codes "r"); unmarshal = λ t. some reading };
  stamped = record { marshal = λ r. some (codes "s"); unmarshal = λ t. none };
  dlq_records = record { marshal = λ r. some (codes "q"); unmarshal = λ t. none };
  is_uuid = any_id;
}

-- A bucket that is never filled up again.
abbrev tokens : Buckets ℕ
tokens = record { new_limiter = 2; allow = λ t n. (ltb 0 n, n - 1) }

abbrev Holds : Published → Text → Text → Type 0
Holds w subject body = In (subject, body) w

stream_laws : StreamLaws stream Holds
stream_laws = record { published = λ subject body w h. inl refl }

abbrev topic : Text
topic = codes "sensegrid/v1/d1/telemetry"

checked-inr_iff_example : (checked stream tokens topic [] ≡ inr (codes "d1", reading)) ↔ (
    (topic ≡ telemetry_topic (codes "d1"))
    × IsPart slash (codes "d1")
    × (some reading ≡ some reading)
    × IsValid any_id reading
    × (reading.device_id ≡ codes "d1"))
checked-inr_iff_example = checked-inr_iff stream tokens topic [] (codes "d1") reading

acknowledged : (handle stream tokens topic [] [] []).0 ≡ true
unfolding handle checked forward allow_device device_id_from_topic split validate
acknowledged = refl

handle-acknowledged_example :
    ((reason : Reason) × (checked stream tokens topic [] ≡ inl reason))
    ⊎ ((device_id : Text) × (r : Reading ℕ) × (checked stream tokens topic [] ≡ inr (device_id, r))
        × (((allow_device tokens 5000000 device_id []).0 ≡ false)
            ⊎ ((body : Text) × (some (codes "s") ≡ some body)
                × In (jetstream_subject device_id, body) (handle stream tokens topic [] [] []).2)))
handle-acknowledged_example =
    handle-acknowledged stream tokens Holds stream_laws topic [] [] [] acknowledged
