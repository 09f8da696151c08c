-- ===== src/Telemetry/Schema.antt =====
-- Reading and Validate of internal/telemetry/schema.go. A nil pointer or map is none. A
-- device_time_ms below 1, which Validate refuses, is 0. uuid.Parse is the parameter `is_uuid`.
use sense_grid.Common.{
  ℕ, ◌≡◌, ◌≢◌, ◌↔◌, Bool, true, false, not, ◌&&◌, Option, none, some, List, [], ◌∷◌, arith, leb,
  nat_eq, if◌then◌else◌, ◌==◌, text_Eq, text_eq_iff, Text, codes, length,
}

pub record Reading (F : Type 0) : Type 0 where
  pub schema_version : Text
  pub device_id : Text
  pub sensor_type : Text
  pub value : Option F
  pub values : Option (List (Text × F))
  pub device_time_ms : ℕ
  pub seq : ℕ
  pub trace_id : Text

pub record StampedReading (F : Type 0) : Type 0 where
  pub reading : Reading F
  pub ingest_time_ms : ℕ

abbrev pub schema_version : Text
schema_version = codes "1.0"

pub data Invalid : Type 0 where
  bad_schema_version bad_device_id no_sensor_type no_value two_values bad_device_time bad_trace_id :
      Invalid

abbrev pub is_set : {A : Type 0} → Option A → Bool
is_set none = false
is_set (some a) = true

abbrev pub is_empty : Text → Bool
is_empty [] = true
is_empty (b ∷ bs) = false

unfoldable pub validate : {F : Type 0} → (Text → Bool) → Reading F → Option Invalid
validate is_uuid r =
    if not (r.schema_version == schema_version)
    then some bad_schema_version
    else if not (is_uuid r.device_id)
    then some bad_device_id
    else if is_empty r.sensor_type
    then some no_sensor_type
    else if not (is_set r.value) && not (is_set r.values)
    then some no_value
    else if is_set r.value && is_set r.values
    then some two_values
    else if leb r.device_time_ms 0
    then some bad_device_time
    else if not (nat_eq (length r.trace_id) 32)
    then some bad_trace_id
    else none

-- What Validate asks for.
pub record IsValid {F : Type 0} (is_uuid : Text → Bool) (r : Reading F) : Type 0 where
  pub version : r.schema_version ≡ schema_version
  pub device : is_uuid r.device_id ≡ true
  pub sensor : r.sensor_type ≢ []
  pub one_value : is_set r.values ≡ not (is_set r.value)
  pub positive_time : r.device_time_ms ≢ 0
  pub trace : length r.trace_id ≡ 32

is_empty_iff : (t : Text) → (is_empty t ≡ true) ↔ (t ≡ [])
is_empty_iff [] = ground arith
is_empty_iff (b ∷ bs) = ground arith

-- Validate accepts a reading exactly when its schema version is 1.0, its device id is a UUID, it
-- names a sensor, exactly one of value and values is set, its time is positive, and its trace id
-- has 32 bytes.
pub validate-none_iff :
    {F : Type 0} (is_uuid : Text → Bool) (r : Reading F)
    → (validate is_uuid r ≡ none) ↔ IsValid is_uuid r
unfolding validate
validate-none_iff is_uuid r = (
  λ h. record {
    version = ground (arith, text_eq_iff r.schema_version schema_version);
    device = ground arith;
    sensor = ground (arith, is_empty_iff r.sensor_type);
    one_value = ground arith;
    positive_time = ground arith;
    trace = ground arith;
  },
  λ v. ground (
    arith,
    text_eq_iff r.schema_version schema_version,
    is_empty_iff r.sensor_type,
    v.version,
    v.device,
    v.sensor,
    v.one_value,
    v.positive_time,
    v.trace,
  ),
)
