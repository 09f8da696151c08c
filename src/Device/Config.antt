-- ===== src/Device/Config.antt =====
-- appliedConfig of cmd/fleet/device.go; cmd/hostagent/config.go has the same code with other sensors,
-- and takes these definitions at its own. A set of sensors is a list without repetitions, which is
-- empty for nil too; fmt.Errorf stands as the data of the error.
use sense_grid.Common.{
  ℕ, suc, Bool, true, false, ◌&&◌, ◌||◌, Option, none, some, List, [], ◌∷◌, ◌++◌, if◌then◌else◌,
  ◌==◌, text_Eq, Text, codes, contains, Result, ok, err, ◌>>=◌, ℤ, pos, ltb_ℤ, is_zero_ℤ, Float,
}
use sense_grid.Shadow.Types.{
  Desired, Reported, schema_version, reporting_continuous, reporting_batched,
}
use sense_grid.Shadow.Store.{no_desired}

pub record AppliedConfig (F : Type 0) : Type 0 where
  pub desired : Desired F
  pub sample_interval_ms : ℤ
  pub enabled_sensors : List Text
  pub batch_size : ℤ
  pub flush_interval_ms : ℤ
  pub mode : Text

pub data Invalid (F : Type 0) : Type 0 where
  bad_rate : F → Invalid F
  no_sensors : Invalid F
  unknown_sensor : Text → Invalid F
  bad_batch_size : ℤ → Invalid F
  bad_flush_interval : ℤ → Invalid F
  unknown_mode : Text → Invalid F
  batched_without_bound : Invalid F

abbrev pub known_sensors : List Text
known_sensors = codes "temperature" ∷ codes "humidity" ∷ codes "accel" ∷ []

unfoldable pub default_applied_config : {F : Type 0} → ℤ → AppliedConfig F
default_applied_config sample_interval_ms = record {
  desired = record no_desired { schema_version = schema_version };
  sample_interval_ms = sample_interval_ms;
  enabled_sensors = [];
  batch_size = pos 0;
  flush_interval_ms = pos 0;
  mode = reporting_continuous;
}

-- `set[s] = true`.
abbrev pub add_key : Text → List Text → List Text
add_key s set = if contains s set then set else set ++ s ∷ []

-- The loop over d.EnabledSensors.
unfoldable pub collect_sensors :
    {F : Type 0} → List Text → List Text → List Text → Result (Invalid F) (List Text)
collect_sensors known [] set = ok set
collect_sensors known (s ∷ ss) set =
    let rest = collect_sensors known ss (add_key s set) in
    if contains s known then rest else err (unknown_sensor s)

module _ {F : Type 0} (fl : Float F) where
  unfoldable pub apply_rate : Option F → AppliedConfig F → Result (Invalid F) (AppliedConfig F)
  apply_rate none c = ok c
  apply_rate (some rate) c =
      let interval = fl.to_int (fl.div (fl.of_int 1000) rate) in
      if fl.lt rate fl.nil || fl.equal rate fl.nil
      then err (bad_rate rate)
      else ok (record c { sample_interval_ms = if ltb_ℤ interval (pos 1) then pos 1 else interval })

  unfoldable pub apply_sensors :
      List Text → Option (List Text) → AppliedConfig F → Result (Invalid F) (AppliedConfig F)
  unfolding collect_sensors
  apply_sensors known none c = ok c
  apply_sensors known (some []) c = err no_sensors
  apply_sensors known (some (s ∷ ss)) c = do
    set ← collect_sensors known (s ∷ ss) []
    ok (record c { enabled_sensors = set })

  unfoldable pub apply_batch_size :
      Option ℤ → AppliedConfig F → Result (Invalid F) (AppliedConfig F)
  apply_batch_size none c = ok c
  apply_batch_size (some n) c =
      if ltb_ℤ n (pos 1) then err (bad_batch_size n) else ok (record c { batch_size = n })

  unfoldable pub apply_flush_interval :
      Option ℤ → AppliedConfig F → Result (Invalid F) (AppliedConfig F)
  apply_flush_interval none c = ok c
  apply_flush_interval (some n) c =
      if ltb_ℤ n (pos 0)
      then err (bad_flush_interval n)
      else ok (record c { flush_interval_ms = n })

  unfoldable pub apply_mode : Option Text → AppliedConfig F → Result (Invalid F) (AppliedConfig F)
  apply_mode none c = ok c
  apply_mode (some mode) c =
      if mode == reporting_continuous || mode == reporting_batched
      then ok (record c { mode = mode })
      else err (unknown_mode mode)

  -- The last test of applyPartial.
  unfoldable pub check_batched : AppliedConfig F → Result (Invalid F) (AppliedConfig F)
  check_batched c =
      if c.mode == reporting_batched && (is_zero_ℤ c.batch_size && is_zero_ℤ c.flush_interval_ms)
      then err batched_without_bound
      else ok c

  unfoldable pub apply_partial :
      List Text → AppliedConfig F → Desired F → Result (Invalid F) (AppliedConfig F)
  apply_partial known current d = do
    rated ← apply_rate d.sample_rate_hz (record current { desired = d })
    sensed ← apply_sensors known d.enabled_sensors rated
    batched ← apply_batch_size d.batch_size sensed
    flushed ← apply_flush_interval d.flush_interval_ms batched
    moded ← apply_mode d.reporting_mode flushed
    check_batched moded

  abbrev pub is_nil : List Text → Bool
  is_nil [] = true
  is_nil (x ∷ xs) = false

  unfoldable pub sensor_enabled : AppliedConfig F → Text → Bool
  sensor_enabled c sensor_type =
      if is_nil c.enabled_sensors then true else contains sensor_type c.enabled_sensors

  abbrev pub non_zero_int_ptr : ℤ → Option ℤ
  non_zero_int_ptr n = if is_zero_ℤ n then none else some n

  -- `float64(n)` of an int.
  abbrev pub of_ℤ : ℤ → F
  of_ℤ (pos n) = fl.of_int n
  of_ℤ (ℤ.negsuc n) = fl.sub fl.nil (fl.of_int (suc n))

  unfoldable pub to_reported : AppliedConfig F → Reported F
  to_reported c = record {
    schema_version = schema_version;
    applied_revision = c.desired.revision;
    rejected = false;
    rejected_revision = 0;
    reject_reason = [];
    sample_rate_hz = some (fl.div (fl.of_int 1000) (of_ℤ c.sample_interval_ms));
    enabled_sensors = if is_nil c.enabled_sensors then none else some c.enabled_sensors;
    batch_size = non_zero_int_ptr c.batch_size;
    flush_interval_ms = non_zero_int_ptr c.flush_interval_ms;
    reporting_mode = some c.mode;
    reported_at_ms = 0;
  }

  unfoldable pub to_rejected_reported : AppliedConfig F → ℕ → Text → Reported F
  unfolding to_reported
  to_rejected_reported c revision reason = record (to_reported c) {
    rejected = true;
    rejected_revision = revision;
    reject_reason = reason;
  }
