-- ===== src/Shadow/Feedback.antt =====
-- A configuration that a device refuses, from its handler through the reconciler to the health of a rollout.
use sense_grid.Common.{
  ℕ, ◌≡◌, refl, ap, ◌∙◌, inl, inr, Bool, true, some, List, Text, codes, err, arith, Float,
  Option-cases, ok,
}
use sense_grid.Telemetry.Split.{IsPart}
use sense_grid.Telemetry.Topics.{
  slash, state_topic, device_id_from_state_topic, device_id_from_topic_iff,
}
use sense_grid.Shadow.Types.{Desired, Reported, schema_version}
use sense_grid.Shadow.Store.{Bucket, BucketLaws, reported_key, put_reported, get_reported}
use sense_grid.Shadow.Reconciler.{on_message}
use sense_grid.Rollout.Signals.{is_rejection}
use sense_grid.Control.Devices.{Row}
use sense_grid.Device.Config.{
  AppliedConfig, Invalid, apply_partial, to_reported, to_rejected_reported,
}
use sense_grid.Device.Handler.{Client, at_time, publish_reported_value, config_handler}

-- What a device publishes when it refuses `d` at the time of `v`.
abbrev pub rejected_report :
    {F V : Type 0} → Float F → Client F V → AppliedConfig F → Desired F → Invalid F → V → Reported F
rejected_report fl cl current d why v =
    at_time fl cl (to_rejected_reported fl current d.revision (cl.describe why)) (cl.now v).0

module _ {F W : Type 0} (b : Bucket F W) (laws : BucketLaws b) where
  get_reported-put_reported :
      (id : Text) (r : Reported F) (w : W) (body : Text) (n : ℕ)
      → b.reported.marshal (record r { schema_version = schema_version }) ≡ some body
      → b.reported.unmarshal body ≡ some (record r { schema_version = schema_version })
      → (b.put (reported_key id) body w).0 ≡ some n
      → (get_reported b id (put_reported b id r w).1).0
        ≡ ok (some (record r { schema_version = schema_version }))
  unfolding get_reported put_reported
  get_reported-put_reported id r w body n written back put =
      let w1 = (b.put (reported_key id) body w).1 in
      let w2 = (b.audit id (codes "reported") n body w1).1 in
      let found : (b.get (reported_key id) w2).0 ≡ some (some (body, n)) =
        laws.audit_keeps id (codes "reported") n body (reported_key id) w1
        ∙ laws.holds (reported_key id) body n w put in
      rw (written, put_reported) (rw put (rw (found, get_reported) (rw back refl)))

  -- The state topic of a device leads to its entry.
  on_message-put_reported :
      (down : Bool) (now : ℕ) (id payload : Text) (rep : Reported F) (w : W) (rows : List Row)
      → IsPart slash id
      → b.reported.unmarshal payload ≡ some rep
      → (on_message b down now (state_topic id) payload (w, rows)).0 ≡ (put_reported b id rep w).1
  unfolding on_message
  on_message-put_reported down now id payload rep w rows part read =
      let here : device_id_from_state_topic (state_topic id) ≡ some id =
        (device_id_from_topic_iff (state_topic id) id).1.1 (refl, part) in
      rw (here, on_message)
        (rw read (elim (Option-cases (put_reported b id rep w).0) [
          | inl fine ↦ rw fine refl
          | inr (e, failed) ↦ rw failed refl
        ]))

  -- A device that cannot apply revision n keeps its configuration and publishes a report; when the
  -- reconciler gets that message, whose JSON reads back as that report, and the bucket takes it, GetReported answers the report: it names the
  -- revision that the device still runs, and a rollout that pushed revision n counts it as a
  -- rejection.
  pub refused-is_rejection :
      {V : Type 0} (fl : Float F) (cl : Client F V) (known : List Text) (id payload body : Text)
      (current : AppliedConfig F) (d : Desired F) (why : Invalid F) (v : V) (down : Bool)
      (now n : ℕ) (w : W) (rows : List Row)
      → cl.desired.unmarshal payload ≡ some d
      → apply_partial fl known current d ≡ err why
      → b.reported.marshal (rejected_report fl cl current d why v) ≡ some body
      → b.reported.unmarshal body ≡ some (rejected_report fl cl current d why v)
      → cl.reported.marshal (rejected_report fl cl current d why v) ≡ some body
      → (b.put (reported_key id) body w).0 ≡ some n
      → IsPart slash id
      → (config_handler fl cl known id payload current v
          ≡ (current, cl.publish (state_topic id) body (cl.now v).1))
        × ((get_reported b id (on_message b down now (state_topic id) body (w, rows)).0).0
            ≡ ok (some (rejected_report fl cl current d why v)))
        × (is_rejection d.revision (some (some (rejected_report fl cl current d why v))) ≡ true)
        × ((rejected_report fl cl current d why v).applied_revision ≡ current.desired.revision)
  unfolding config_handler publish_reported_value to_rejected_reported to_reported
  refused-is_rejection fl cl known id payload body current d why v down now n w rows read refused
        written back sent put part =
      let rep = rejected_report fl cl current d why v in
      (
        rw (read, config_handler)
            (rw (refused, config_handler) (rw (sent, publish_reported_value) refl)),
        ap (λ x. (get_reported b id x).0)
              (on_message-put_reported down now id body rep w rows part back)
            ∙ get_reported-put_reported id rep w body n written back put,
        ground arith,
        refl,
      )
