-- ===== src/Hostagent/Config.antt =====
-- cmd/hostagent/config.go, whose code is that of cmd/fleet/device.go with other sensors.
use sense_grid.Common.{ℕ, Bool, List, [], ◌∷◌, Text, codes, Result, ℤ, Float}
use sense_grid.Shadow.Types.{Desired, Reported}
use sense_grid.Device.Config.{
  AppliedConfig, Invalid, apply_partial as apply_partial_for, default_applied_config as default_for,
  sensor_enabled as sensor_enabled_for, to_reported as to_reported_for,
  to_rejected_reported as to_rejected_reported_for,
}

abbrev pub known_sensors : List Text
known_sensors =
    codes "cpu" ∷ codes "cpu_temp" ∷ codes "mem" ∷ codes "battery" ∷ codes "wifi_signal" ∷ []

unfoldable pub default_applied_config : {F : Type 0} → ℤ → AppliedConfig F
unfolding default_for
default_applied_config sample_interval_ms = default_for sample_interval_ms

module _ {F : Type 0} (fl : Float F) where
  unfoldable pub apply_partial : AppliedConfig F → Desired F → Result (Invalid F) (AppliedConfig F)
  unfolding apply_partial_for
  apply_partial current d = apply_partial_for fl known_sensors current d

  unfoldable pub sensor_enabled : AppliedConfig F → Text → Bool
  unfolding sensor_enabled_for
  sensor_enabled c sensor_type = sensor_enabled_for fl c sensor_type

  unfoldable pub to_reported : AppliedConfig F → Reported F
  unfolding to_reported_for
  to_reported c = to_reported_for fl c

  unfoldable pub to_rejected_reported : AppliedConfig F → ℕ → Text → Reported F
  unfolding to_rejected_reported_for
  to_rejected_reported c revision reason = to_rejected_reported_for fl c revision reason
