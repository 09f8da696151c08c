-- ===== src/Shadow/Types.antt =====
-- internal/shadow/types.go. A nil pointer or a nil slice is none.
use sense_grid.Common.{ℕ, Bool, Option, List, Text, ℤ, codes}

pub record Desired (F : Type 0) : Type 0 where
  pub schema_version : Text
  pub revision : ℕ
  pub sample_rate_hz : Option F
  pub enabled_sensors : Option (List Text)
  pub batch_size : Option ℤ
  pub flush_interval_ms : Option ℤ
  pub reporting_mode : Option Text

pub record Reported (F : Type 0) : Type 0 where
  pub schema_version : Text
  pub applied_revision : ℕ
  pub rejected : Bool
  pub rejected_revision : ℕ
  pub reject_reason : Text
  pub sample_rate_hz : Option F
  pub enabled_sensors : Option (List Text)
  pub batch_size : Option ℤ
  pub flush_interval_ms : Option ℤ
  pub reporting_mode : Option Text
  pub reported_at_ms : ℕ

abbrev pub schema_version : Text
schema_version = codes "1.0"

abbrev pub reporting_continuous : Text
reporting_continuous = codes "continuous"

abbrev pub reporting_batched : Text
reporting_batched = codes "batched"

-- The value that is written for a desired configuration: Revision is never stored in it.
abbrev pub stored : {F : Type 0} → Desired F → Desired F
stored d = record d { schema_version = schema_version; revision = 0 }
