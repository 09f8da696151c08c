-- ===== src/Control/Configured.antt =====
-- What a configuration that PUT /v1/devices/{id}/shadow/desired takes has become.
use sense_grid.Common.{
  ℕ, ◌≡◌, sym, ap, ◌∙◌, inl, inr, Bool, true, some, arith, Text, codes, ok, Bool-cases,
  Option-cases, Result-cases,
}
use sense_grid.Telemetry.Topics.{config_topic}
use sense_grid.Shadow.Types.{Desired, stored}
use sense_grid.Shadow.Store.{
  Bucket, BucketLaws, desired_key, set_desired, get_desired, as_json, ReadsBack, at_revision,
  get_desired-set_desired,
}
use sense_grid.Shadow.Reconciler.{publish_desired}
use sense_grid.Control.Http.{answered}
use sense_grid.Control.ShadowApi.{put_desired}

module _ {F W : Type 0} (b : Bucket F W) (laws : BucketLaws b)
    (publish : Text → Text → W → Bool × W)
    (apart : (topic body k : Text) (w : W)
      → (b.get k (publish topic body w).1).0 ≡ (b.get k w).0) where
  set_desired-ok :
      (id : Text) (d saved : Desired F) (w : W)
      → ReadsBack b.desired (stored d)
      → (set_desired b id d w).0 ≡ ok saved
      → (n : ℕ) × (saved ≡ at_revision (stored d) n)
        × ((get_desired b id (set_desired b id d w).1).0 ≡ ok (as_json saved, n))
  unfolding set_desired
  set_desired-ok id d saved w reads h = elim (Option-cases (b.desired.marshal (stored d))) [
    | inl unwritten ↦ absurd (cc (rw (unwritten, set_desired) at h))
    | inr (body, written) ↦ elim (Option-cases (b.put (desired_key id) body w).0) [
      | inl lost ↦ absurd (cc (rw lost at (rw (written, set_desired) at h)))
      | inr (n, put) ↦
          let (found, made) = get_desired-set_desired b laws id d w body n reads written put in
          elim (Bool-cases
            (b.audit id (codes "desired") n body (b.put (desired_key id) body w).1).0) [
              | inr no_audit ↦ absurd (cc (rw no_audit at (sym h ∙ made)))
              | inl audited ↦
                  let same : saved ≡ at_revision (stored d) n = cc (rw audited at (sym h ∙ made)) in
                  (n, same, found ∙ ap (λ (x : Desired F). ok (as_json x, n)) (sym same))
            ]
    ]
  ]

  get_desired-same :
      (id : Text) (w w' : W)
      → (b.get (desired_key id) w).0 ≡ (b.get (desired_key id) w').0
      → (get_desired b id w).0 ≡ (get_desired b id w').0
  unfolding get_desired
  get_desired-same id w w' e = ground arith

  -- Where JSON reads back this configuration but for an empty list of sensors, the bucket holds what
  -- was put, and neither an audit nor a publication touches it: if
  -- PUT /v1/devices/{id}/shadow/desired answers a configuration, the broker has taken that
  -- configuration on the topic of the device, and GetDesired answers it with its revision, with no
  -- sensors in place of an empty list of them.
  pub put_desired-answered :
      (id : Text) (d saved : Desired F) (w : W)
      → ReadsBack b.desired (stored d)
      → (put_desired b (some publish) id (some d) w).0 ≡ answered saved
      → let w1 = (set_desired b id d w).1 in
        ((body : Text) × (b.desired.marshal saved ≡ some body)
          × ((publish (config_topic id) body w1).0 ≡ true))
        × ((get_desired b id (put_desired b (some publish) id (some d) w).1).0
            ≡ ok (as_json saved, saved.revision))
        × (saved ≡ at_revision (stored d) saved.revision)
  unfolding put_desired publish_desired
  put_desired-answered id d saved w reads h = elim (Result-cases (set_desired b id d w).0) [
    | inl (why, failed) ↦ absurd (cc (rw (failed, put_desired) at h))
    | inr (made, fine) ↦
        let w1 = (set_desired b id d w).1 in
        let (n, shape, found) = set_desired-ok id d made w reads fine in
        elim (Option-cases (b.desired.marshal made)) [
          | inl unwritten ↦
              absurd (cc (rw (unwritten, publish_desired) at (rw (fine, put_desired) at h)))
          | inr (body, written) ↦ elim (Bool-cases (publish (config_topic id) body w1).0) [
            | inr lost ↦
                absurd
                  (cc (rw lost at (rw (written, publish_desired) at (rw (fine, put_desired) at h))))
            | inl sent ↦
                let same : made ≡ saved =
                  cc
                    (rw sent at (rw (written, publish_desired) at (rw (fine, put_desired) at h))) in
                let revision : n ≡ saved.revision =
                  ap (λ (x : Desired F). x.revision) (sym shape ∙ same) in
                let kept =
                  get_desired-same id (publish (config_topic id) body w1).1 w1
                    (apart (config_topic id) body (desired_key id) w1) in
                (
                  (body, ap b.desired.marshal (sym same) ∙ written, sent),
                  rw (fine, put_desired)
                      (rw (written, publish_desired)
                        (rw sent (
                          kept
                          ∙ found
                          ∙ ap (λ (x : Desired F). ok (as_json x, n)) same
                          ∙ ap (λ (m : ℕ). ok (as_json saved, m)) revision))),
                  sym same ∙ shape ∙ ap (at_revision (stored d)) revision,
                )
          ]
        ]
  ]
