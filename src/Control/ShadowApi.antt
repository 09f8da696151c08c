-- ===== src/Control/ShadowApi.antt =====
-- cmd/control/devices_handlers.go: the devices and their shadows. The registry is the list of rows of
-- Control/Devices.antt, `down` says that the database does not answer, `b` is the bucket of the
-- shadows, and `now` the time at which a handler asks for it, for a device.
use sense_grid.Common.{
  ℕ, Bool, false, Option, none, some, List, [], ◌∷◌, if◌then◌else◌, nat_eq, Text, codes, ok, err,
}
use sense_grid.Shadow.Types.{Desired, Reported}
use sense_grid.Shadow.Drift.{drift}
use sense_grid.Shadow.Store.{Bucket, set_desired, get_desired, get_reported}
use sense_grid.Shadow.Reconciler.{publish_desired}
use sense_grid.Control.Devices.{Row, Device, list}
use sense_grid.Control.Http.{Reply, answered, refused, internal_error, invalid_body}

pub record DeviceView : Type 0 where
  pub id : Text
  pub name : Text
  pub kind : Text
  pub status : Text
  pub registered_at : ℕ
  pub last_seen : Option ℕ

pub record ShadowView (F : Type 0) : Type 0 where
  pub desired : Desired F
  pub desired_revision : ℕ
  pub reported : Option (Reported F)
  pub drift : Bool

abbrev pub to_device_view : {M : Type 0} → Device M → DeviceView
to_device_view d = record {
  id = d.id;
  name = d.name;
  kind = d.kind;
  status = d.status;
  registered_at = d.registered_at;
  last_seen = d.last_seen;
}

abbrev pub to_device_views : {M : Type 0} → List (Device M) → List DeviceView
to_device_views [] = []
to_device_views (d ∷ ds) = to_device_view d ∷ to_device_views ds

-- GET /v1/devices.
unfoldable pub get_devices :
    {M : Type 0} → (Text → Option M) → Bool → List Row → Reply (List DeviceView)
get_devices unmarshal down rows = elim (list unmarshal down rows) [
  | err e ↦ internal_error
  | ok ds ↦ answered (to_device_views ds)
]

module _ {F W : Type 0} (b : Bucket F W) where
  -- GET /v1/devices/{id}/shadow.
  unfoldable pub get_shadow : ℕ → ℕ → Text → W → Reply (ShadowView F) × W
  get_shadow stale_after now id w =
      let (desired, w1) = get_desired b id w in
      let (reported, w2) = get_reported b id w1 in
      elim desired [
        | err e ↦ (internal_error, w1)
        | ok (d, rev) ↦ elim reported [
          | err e ↦ (internal_error, w2)
          | ok rep ↦ (
            answered (record {
              desired = d;
              desired_revision = rev;
              reported = rep;
              drift = drift rev rep now stale_after;
            }),
            w2,
          )
        ]
      ]

  -- PUT /v1/devices/{id}/shadow/desired: `publish` is the connection to the broker, if there is one,
  -- and the body is none where it does not decode.
  unfoldable pub put_desired :
      Option (Text → Text → W → Bool × W) → Text → Option (Desired F) → W → Reply (Desired F) × W
  put_desired none id body w =
      (refused 503 (codes "shadow publishing is temporarily unavailable"), w)
  put_desired (some publish) id none w = (invalid_body, w)
  put_desired (some publish) id (some desired) w =
      let (stored, w1) = set_desired b id desired w in
      elim stored [
        | err e ↦ (internal_error, w1)
        | ok d ↦
            let (sent, w2) = publish_desired b.desired publish id d w1 in
            if sent
            then (answered d, w2)
            else (refused 500 (codes "desired state saved but publish to the device failed"), w2)
      ]

  -- Has this device drifted? A device without a desired configuration, or whose shadow cannot be
  -- read, is passed over.
  unfoldable pub is_drifted : ℕ → (Text → ℕ) → Text → W → Bool × W
  is_drifted stale_after now id w =
      let (desired, w1) = get_desired b id w in
      let (reported, w2) = get_reported b id w1 in
      elim desired [
        | err e ↦ (false, w1)
        | ok (d, rev) ↦ if nat_eq rev 0 then (false, w1) else elim reported [
          | err e ↦ (false, w2)
          | ok rep ↦ (drift rev rep (now id) stale_after, w2)
        ]
      ]

  -- The loop of GET /v1/devices/drift.
  unfoldable pub drifted : {M : Type 0} → ℕ → (Text → ℕ) → List (Device M) → W → List DeviceView × W
  unfolding is_drifted
  drifted stale_after now [] w = ([], w)
  drifted stale_after now (d ∷ ds) w =
      let (out, w1) = is_drifted stale_after now d.id w in
      let (views, w2) = drifted stale_after now ds w1 in
      (if out then to_device_view d ∷ views else views, w2)

  unfoldable pub get_drift :
      {M : Type 0}
      → (Text → Option M)
      → ℕ
      → (Text → ℕ)
      → Bool
      → List Row
      → W
      → Reply (List DeviceView) × W
  unfolding drifted
  get_drift unmarshal stale_after now down rows w = elim (list unmarshal down rows) [
    | err e ↦ (internal_error, w)
    | ok ds ↦ let (views, w1) = drifted stale_after now ds w in (answered views, w1)
  ]
