-- ===== src/Ingest/Delivery.antt =====
-- What an acknowledgement of the ingest handler means.
use sense_grid.Common.{
  ℕ, ◌≡◌, ◌≢◌, ◌↔◌, ◌⊎◌, refl, sym, ap, subst, ◌∙◌, inl, inr, true, false, some, List, arith, ◌==◌,
  text_Eq, text_eq_iff, Text, lookup, Bool-cases, Option-cases,
}
use sense_grid.Telemetry.Schema.{Reading, IsValid, validate, validate-none_iff}
use sense_grid.Telemetry.Split.{IsPart}
use sense_grid.Telemetry.Topics.{
  slash, telemetry_topic, jetstream_subject, device_id_from_topic, device_id_from_topic_iff,
}
use sense_grid.Ingest.Limiter.{Buckets, allow_device, allow_device-isolated}
use sense_grid.Ingest.Handler.{Services, Reason, milliseconds, checked, forward, handle}

Sum-cases : {A B : Type 0} (x : A ⊎ B) → ((a : A) × (x ≡ inl a)) ⊎ ((b : B) × (x ≡ inr b))
Sum-cases (inl a) = inl (a, refl)
Sum-cases (inr b) = inr (b, refl)

-- What JetStream promises: a message whose publication is answered is held.
pub record StreamLaws {F W : Type 0} (sv : Services F W) (Holds : W → Text → Text → Type 0)
    : Type 0 where
  pub published :
      (subject body : Text) (w : W)
      → (sv.publish subject body w).0 ≡ true
      → Holds (sv.publish subject body w).1 subject body

module _ {F W L : Type 0} (sv : Services F W) (b : Buckets L) where
  -- A message is let through as a reading of a device exactly when its topic is the device's
  -- telemetry topic and its payload is a valid reading that names that device.
  pub checked-inr_iff :
      (topic payload device_id : Text) (r : Reading F)
      → (checked sv b topic payload ≡ inr (device_id, r)) ↔ (
          (topic ≡ telemetry_topic device_id)
          × IsPart slash device_id
          × (sv.readings.unmarshal payload ≡ some r)
          × IsValid sv.is_uuid r
          × (r.device_id ≡ device_id))
  unfolding checked
  checked-inr_iff topic payload device_id r = (there, back)
    where
      there :
          checked sv b topic payload ≡ inr (device_id, r)
          → (topic ≡ telemetry_topic device_id)
            × IsPart slash device_id
            × (sv.readings.unmarshal payload ≡ some r)
            × IsValid sv.is_uuid r
            × (r.device_id ≡ device_id)
      there h = elim (Option-cases (device_id_from_topic topic)) [
        | inl off ↦ ground arith
        | inr (d, found) ↦ elim (Option-cases (sv.readings.unmarshal payload)) [
          | inl bad ↦ ground arith
          | inr (x, read) ↦ elim (Option-cases (validate sv.is_uuid x)) [
            | inr (why, wrong) ↦ ground arith
            | inl good ↦
                let same : (d ≡ device_id) × (x ≡ r) × (x.device_id ≡ d) =
                  ground (arith, text_eq_iff x.device_id d) in
                let (t, p) =
                  (device_id_from_topic_iff topic device_id).0.0 (found ∙ ap some same.0) in
                (
                  t,
                  p,
                  read ∙ ap some same.1,
                  subst (IsValid sv.is_uuid) same.1 ((validate-none_iff sv.is_uuid x).0 good),
                  ap (λ y. y.device_id) (sym same.1) ∙ same.2 ∙ same.0,
                )
          ]
        ]
      ]

      back :
          (topic ≡ telemetry_topic device_id)
            × IsPart slash device_id
            × (sv.readings.unmarshal payload ≡ some r)
            × IsValid sv.is_uuid r
            × (r.device_id ≡ device_id)
          → checked sv b topic payload ≡ inr (device_id, r)
      back (t, p, read, v, same) = ground (
        arith,
        (device_id_from_topic_iff topic device_id).0.1 (t, p),
        (validate-none_iff sv.is_uuid r).1 v,
        text_eq_iff r.device_id device_id,
      )

  forward-holds :
      (Holds : W → Text → Text → Type 0)
      → StreamLaws sv Holds
      → (device_id : Text) (r : Reading F) (t : ℕ) (w : W) → (forward sv b device_id r t w).0 ≡ true
      → (body : Text) × (sv.stamped.marshal
            (record { reading = r; ingest_time_ms = milliseconds t })
          ≡ some body)
        × Holds (forward sv b device_id r t w).1 (jetstream_subject device_id) body
  unfolding forward
  forward-holds Holds laws device_id r t w h =
      elim (Option-cases
        (sv.stamped.marshal (record { reading = r; ingest_time_ms = milliseconds t }))) [
          | inl lost ↦ ground arith
          | inr (body, m) ↦
              let e : forward sv b device_id r t w
                  ≡ sv.publish (jetstream_subject device_id) body w =
                rw (m, forward) refl in
              (
                body,
                m,
                subst (λ x. Holds x.1 (jetstream_subject device_id) body) (sym e)
                    (laws.published (jetstream_subject device_id) body w
                      (ap (λ x. x.0) (sym e) ∙ h)),
              )
        ]

  -- Where JetStream holds what it answered for: a message is acknowledged only if it was refused
  -- by the checks, or shed by the limiter of its device, or JetStream now holds its stamped reading
  -- on the subject of its device.
  pub handle-acknowledged :
      (Holds : W → Text → Text → Type 0)
      → StreamLaws sv Holds
      → (topic payload : Text) (limiters : List (Text × L)) (w : W)
      → (handle sv b topic payload limiters w).0 ≡ true
      → ((reason : Reason) × (checked sv b topic payload ≡ inl reason))
        ⊎ ((device_id : Text) × (r : Reading F) × (checked sv b topic payload ≡ inr (device_id, r))
            × (((allow_device b (sv.now (sv.now w).1).0 device_id limiters).0 ≡ false)
                ⊎ ((body : Text) × (sv.stamped.marshal
                        (record { reading = r; ingest_time_ms = milliseconds (sv.now w).0 })
                      ≡ some body)
                    × Holds
                        (handle sv b topic payload limiters w).2
                        (jetstream_subject device_id)
                        body)))
  unfolding handle
  handle-acknowledged Holds laws topic payload limiters w h =
      elim (Sum-cases (checked sv b topic payload)) [
        | inl refused ↦ inl refused
        | inr ((device_id, r), e) ↦
            let t = (sv.now w).0 in
            let (t', w2) = sv.now (sv.now w).1 in
            let (allowed, limiters') = allow_device b t' device_id limiters in
            elim (Bool-cases allowed) [
              | inr shed ↦ inr (device_id, r, e, inl shed)
              | inl passed ↦
                  let (published, w3) = forward sv b device_id r t w2 in
                  let eq : handle sv b topic payload limiters w ≡ (published, limiters', w3) =
                    rw (e, handle) (rw passed refl) in
                  let (body, m, held) =
                    forward-holds Holds laws device_id r t w2 (ap (λ x. x.0) (sym eq) ∙ h) in
                  inr (
                    device_id,
                    r,
                    e,
                    inr (
                      body,
                      m,
                      subst (λ x. Holds x.2 (jetstream_subject device_id) body) (sym eq) held,
                    ),
                  )
            ]
      ]

  -- A message leaves the limiter of every device alone whose telemetry topic it did not come on.
  pub handle-isolated :
      (topic payload other : Text) (limiters : List (Text × L)) (w : W)
      → device_id_from_topic topic ≢ some other
      → lookup other (handle sv b topic payload limiters w).1 ≡ lookup other limiters
  unfolding handle
  handle-isolated topic payload other limiters w foreign =
      elim (Sum-cases (checked sv b topic payload)) [
        | inl (reason, e) ↦ rw (e, handle) refl
        | inr ((device_id, r), e) ↦
            let (t, p, _, _, _) = (checked-inr_iff topic payload device_id r).0 e in
            let found = (device_id_from_topic_iff topic device_id).0.1 (t, p) in
            let differs : (device_id == other) ≡ false = elim (Bool-cases (device_id == other)) [
              | inr d ↦ d
              | inl same ↦ absurd (foreign (found ∙ ap some ((text_eq_iff device_id other).0 same)))
            ] in
            let t' = (sv.now (sv.now w).1).0 in
            let kept = (allow_device-isolated b t' device_id other limiters differs).2 in
            rw (e, handle)
              (elim (Bool-cases (allow_device b t' device_id limiters).0) [
                | inl passed ↦ rw passed kept
                | inr shed ↦ rw shed kept
              ])
      ]
