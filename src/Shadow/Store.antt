-- ===== src/Shadow/Store.antt =====
-- internal/shadow/store.go over JetStream's key-value bucket, which is a parameter: `get` answers
-- none for an error and some none for a missing key. `audit` says whether the row of shadow_history
-- could be inserted; it is never read back.
use sense_grid.Common.{
  List, [], ◌∷◌, ℕ, ◌≡◌, refl, ◌∙◌, inl, inr, Bool, Option, none, some, ◌++◌, if◌then◌else◌,
  text_Eq, Text, codes, Codec, Result, ok, err, Bool-cases,
}
use sense_grid.Shadow.Types.{Desired, Reported, schema_version, stored}

pub record Bucket (F W : Type 0) : Type 0 where
  pub put : Text → Text → W → Option ℕ × W
  pub get : Text → W → Option (Option (Text × ℕ)) × W
  pub audit : Text → Text → ℕ → Text → W → Bool × W
  pub desired : Codec (Desired F)
  pub reported : Codec (Reported F)

pub data Error : Type 0 where
  marshaling writing auditing reading unmarshaling : Error

unfoldable pub desired_key : Text → Text
desired_key id = id ++ codes ".desired"

unfoldable pub reported_key : Text → Text
reported_key id = id ++ codes ".reported"

abbrev pub at_revision : {F : Type 0} → Desired F → ℕ → Desired F
at_revision d rev = record d { revision = rev }

-- `Desired{}`.
abbrev pub no_desired : {F : Type 0} → Desired F
no_desired = record {
  schema_version = codes "";
  revision = 0;
  sample_rate_hz = none;
  enabled_sensors = none;
  batch_size = none;
  flush_interval_ms = none;
  reporting_mode = none;
}

module _ {F W : Type 0} (b : Bucket F W) where
  unfoldable pub set_desired : Text → Desired F → W → Result Error (Desired F) × W
  set_desired id d w = elim (b.desired.marshal (stored d)) [
    | none ↦ (err marshaling, w)
    | some body ↦
        let (rev, w1) = b.put (desired_key id) body w in
        elim rev [
          | none ↦ (err writing, w1)
          | some n ↦
              let (audited, w2) = b.audit id (codes "desired") n body w1 in
              if audited then (ok (at_revision (stored d) n), w2) else (err auditing, w2)
        ]
  ]

  unfoldable pub get_desired : Text → W → Result Error (Desired F × ℕ) × W
  get_desired id w =
      let (entry, w1) = b.get (desired_key id) w in
      elim entry [
        | none ↦ (err reading, w1)
        | some none ↦ (ok (no_desired, 0), w1)
        | some (some (body, rev)) ↦ elim (b.desired.unmarshal body) [
          | none ↦ (err unmarshaling, w1)
          | some d ↦ (ok (at_revision d rev, rev), w1)
        ]
      ]

  unfoldable pub put_reported : Text → Reported F → W → Option Error × W
  put_reported id r w = elim (b.reported.marshal (record r { schema_version = schema_version })) [
    | none ↦ (some marshaling, w)
    | some body ↦
        let (rev, w1) = b.put (reported_key id) body w in
        elim rev [
          | none ↦ (some writing, w1)
          | some n ↦
              let (audited, w2) = b.audit id (codes "reported") n body w1 in
              (if audited then none else some auditing, w2)
        ]
  ]

  unfoldable pub get_reported : Text → W → Result Error (Option (Reported F)) × W
  get_reported id w =
      let (entry, w1) = b.get (reported_key id) w in
      elim entry [
        | none ↦ (err reading, w1)
        | some none ↦ (ok none, w1)
        | some (some (body, rev)) ↦ elim (b.reported.unmarshal body) [
          | none ↦ (err unmarshaling, w1)
          | some r ↦ (ok (some r), w1)
        ]
      ]

-- `omitempty` leaves an empty list of sensors out, which is then read as nil.
abbrev pub non_empty : Option (List Text) → Option (List Text)
non_empty none = none
non_empty (some []) = none
non_empty (some (s ∷ ss)) = some (s ∷ ss)

abbrev pub as_json : {F : Type 0} → Desired F → Desired F
as_json d = record d { enabled_sensors = non_empty d.enabled_sensors }

-- JSON reads back this configuration, but for an empty list of sensors.
abbrev pub ReadsBack : {F : Type 0} → Codec (Desired F) → Desired F → Type 0
ReadsBack json d =
    (body : Text) → json.marshal d ≡ some body → json.unmarshal body ≡ some (as_json d)

-- What the store relies on: the bucket holds the last value that was put, with its revision, and an
-- audit does not touch the bucket.
pub record BucketLaws {F W : Type 0} (b : Bucket F W) : Type 0 where
  pub holds :
      (k body : Text) (n : ℕ) (w : W)
      → (b.put k body w).0 ≡ some n
      → (b.get k (b.put k body w).1).0 ≡ some (some (body, n))
  pub audit_keeps :
      (id direction : Text) (n : ℕ) (body k : Text) (w : W)
      → (b.get k (b.audit id direction n body w).1).0 ≡ (b.get k w).0

module _ {F W : Type 0} (b : Bucket F W) (laws : BucketLaws b) where
  -- Under the laws above, for a configuration that JSON reads back but for an empty list of sensors:
  -- what SetDesired wrote is what GetDesired then answers, with the revision of the bucket, and with
  -- no sensors in place of an empty list of them; SetDesired answers it when the audit was written,
  -- and an error when only the audit failed.
  pub get_desired-set_desired :
      (id : Text) (d : Desired F) (w : W) (body : Text) (n : ℕ)
      → ReadsBack b.desired (stored d)
      → b.desired.marshal (stored d) ≡ some body
      → (b.put (desired_key id) body w).0 ≡ some n
      → ((get_desired b id (set_desired b id d w).1).0 ≡ ok (at_revision (as_json (stored d)) n, n))
        × ((set_desired b id d w).0 ≡ (
            if (b.audit id (codes "desired") n body (b.put (desired_key id) body w).1).0
            then ok (at_revision (stored d) n)
            else err auditing))
  unfolding get_desired set_desired
  get_desired-set_desired id d w body n reads written put =
      let w1 = (b.put (desired_key id) body w).1 in
      let (audited, w2) = b.audit id (codes "desired") n body w1 in
      let found : (b.get (desired_key id) w2).0 ≡ some (some (body, n)) =
        laws.audit_keeps id (codes "desired") n body (desired_key id) w1
        ∙ laws.holds (desired_key id) body n w put in
      let back = reads body written in
      elim (Bool-cases audited) [
        | inl yes_audited ↦
            rw (written, set_desired)
              (rw put (rw yes_audited (rw (found, get_desired) (rw back (refl, refl)))))
        | inr no_audit ↦
            rw (written, set_desired)
              (rw put (rw no_audit (rw (found, get_desired) (rw back (refl, refl)))))
      ]
