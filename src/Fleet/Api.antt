-- ===== src/Fleet/Api.antt =====
-- cmd/fleet/controlapi.go: the handlers of the fleet over its manager. A body is none where it does not
-- decode.
use sense_grid.Common.{
  of_milliseconds, not, ◌||◌, Option, none, some, List, if◌then◌else◌, Text, codes, ℤ, pos, ltb_ℤ,
}
use sense_grid.Fleet.Runtime.{RuntimeConfig, ConfigPatch}
use sense_grid.Fleet.Manager.{FleetManager, FleetHost, scale, clamp}
use sense_grid.Fleet.Status.{FleetStatus, status, partition, update_runtime_config}
use sense_grid.Control.Http.{Reply, answered, refused, invalid_body}

pub record PartitionRequest : Type 0 where
  pub count : ℤ
  pub duration_ms : ℤ

pub record Partitioned : Type 0 where
  pub partitioned_device_ids : List Text
  pub duration_ms : ℤ

module _ {F W : Type 0} (h : FleetHost W) where
  unfoldable pub get_status : FleetManager F → Reply (FleetStatus F)
  get_status m = answered (status m)

  unfoldable pub post_scale :
      Option ℤ → FleetManager F → W → Reply (FleetStatus F) × FleetManager F × W
  post_scale none m w = (invalid_body, m, w)
  post_scale (some count) m w =
      let (m1, w1) = scale h count m w in
      if ltb_ℤ count (pos 0)
      then (refused 400 (codes "count must be >= 0"), m, w)
      else (answered (status m1), m1, w1)

  -- POST /fleet/partition, whose duration is given in milliseconds.
  unfoldable pub post_partition :
      Option PartitionRequest → FleetManager F → W → Reply Partitioned × FleetManager F × W
  post_partition none m w = (invalid_body, m, w)
  post_partition (some req) m w =
      let (ids, m1, w1) =
        partition h (clamp req.count) (clamp (of_milliseconds req.duration_ms)) m w in
      if not (ltb_ℤ (pos 0) req.count) || not (ltb_ℤ (pos 0) req.duration_ms)
      then (refused 400 (codes "count and duration_ms must be positive"), m, w)
      else (
        answered (record { partitioned_device_ids = ids; duration_ms = req.duration_ms }),
        m1,
        w1,
      )

  -- POST /fleet/config.
  unfoldable pub post_config :
      Option (ConfigPatch F) → FleetManager F → Reply (RuntimeConfig F) × FleetManager F
  post_config none m = (invalid_body, m)
  post_config (some patch) m = let (next, m1) = update_runtime_config patch m in (answered next, m1)
