-- ===== src/Rollout/Reverting.antt =====
-- A rollback over the program's own stores: the engine is given the shadow store and the publisher of
-- internal/shadow beside its own tables. `sv` is what lies behind its other interfaces.
use sense_grid.Common.{
  ℕ, ◌≡◌, refl, ap, ◌∙◌, inl, inr, Bool, true, false, Option, some, none, List, [], ◌∷◌, ◌++◌, ◌==◌,
  text_Eq, text_eq_iff, Text, codes, length, length-append, In, IsDistinct, Float, Result, ok, err,
  Option-cases, Bool-cases, arith,
}
use sense_grid.Shadow.Types.{Desired, stored}
use sense_grid.Shadow.Store.{
  Bucket, BucketLaws, Error, ReadsBack, as_json, at_revision, desired_key, set_desired, get_desired,
  get_reported,
}
use sense_grid.Shadow.Reconciler
use sense_grid.Rollout.Types.{Rollout, Target, Reason, EventType, Detail, RolloutEvent}
use sense_grid.Rollout.Services.{Services}
use sense_grid.Rollout.Signals.{publish, publish_to, publish_desired, push_to, device_ids}
use sense_grid.Rollout.Engine.{Engine, rollback_locked}
use sense_grid.Rollout.Tables.{Columns}
use sense_grid.Rollout.Backed.{World, Answers, backed}
use sense_grid.Rollout.Rollback.{ShadowLaws, rollback_locked-Own}

-- `err == nil`, with the value.
abbrev pub answer_of : {A : Type 0} → Result Error A → Option A
answer_of (ok a) = some a
answer_of (err e) = none

-- The shadow store is the ShadowSetter, and PublishDesired the DevicePublisher.
abbrev pub shadowed :
    {F V : Type 0} → Bucket F V → (Text → Text → V → Bool × V) → Services F V → Services F V
shadowed b send sv = record sv {
  set_desired = λ id d v. let (r, v1) = set_desired b id d v in (answer_of r, v1);
  get_desired = λ id v. let (r, v1) = get_desired b id v in (answer_of r, v1);
  get_reported = λ id v. let (r, v1) = get_reported b id v in (answer_of r, v1);
  publish_desired = some (λ id d v. Reconciler.publish_desired b.desired send id d v);
}

-- The other calls leave the bucket alone, and a put leaves the other keys alone.
pub record Apart {F V : Type 0} (b : Bucket F V) (send : Text → Text → V → Bool × V)
    (answers : Answers V) (sv : Services F V) : Type 0 where
  pub put_other :
      (k j body : Text) (v : V) → (k == j) ≡ false → (b.get j (b.put k body v).1).0 ≡ (b.get j v).0
  pub send_keeps : (topic body k : Text) (v : V) → (b.get k (send topic body v).1).0 ≡ (b.get k v).0
  pub event_keeps :
      (publish_event : RolloutEvent F → V → Bool × V) (event : RolloutEvent F) (k : Text) (v : V)
      → sv.publish_event ≡ some publish_event
      → (b.get k (publish_event event v).1).0 ≡ (b.get k v).0
  pub now_keeps : (k : Text) (v : V) → (b.get k (sv.now v).1).0 ≡ (b.get k v).0
  pub database_keeps : (k : Text) (v : V) → (b.get k (answers v).2).0 ≡ (b.get k v).0

append-same : (s t u : Text) → s ++ u ≡ t ++ u → s ≡ t
append-same [] [] u e = refl
append-same [] (d ∷ t) u e =
    absurd (omega (arith, ap (λ (x : Text). length x) e, length-append (d ∷ t) u))
append-same (c ∷ s) [] u e =
    absurd (omega (arith, ap (λ (x : Text). length x) e, length-append (c ∷ s) u))
append-same (c ∷ s) (d ∷ t) u e =
    let first : c ≡ d = cc e in
    let rest : s ++ u ≡ t ++ u = cc e in let same = append-same s t u rest in rw (first, same) refl

desired_key-differs : (id j : Text) → (id == j) ≡ false → (desired_key id == desired_key j) ≡ false
unfolding desired_key
desired_key-differs id j other = elim (Bool-cases (desired_key id == desired_key j)) [
  | inr differ ↦ differ
  | inl same ↦
      let e = append-same id j (codes ".desired") ((text_eq_iff _ _).0 same) in
      absurd (cc (other, (text_eq_iff id j).1 e))
]

module _ {F V : Type 0} (b : Bucket F V) (laws : BucketLaws b) (send : Text → Text → V → Bool × V)
    (answers : Answers V) (sv : Services F V) (apart : Apart b send answers sv)
    (c : Columns F) where
  abbrev pub entry : World V → Text → Option (Option (Text × ℕ))
  entry w id = (b.get (desired_key id) w.rest).0

  set_desired-other :
      (id j : Text) (d : Desired F) (v : V)
      → (id == j) ≡ false
      → (b.get (desired_key j) (set_desired b id d v).1).0 ≡ (b.get (desired_key j) v).0
  unfolding set_desired
  set_desired-other id j d v other = elim (Option-cases (b.desired.marshal (stored d))) [
    | inl unwritten ↦ rw (unwritten, set_desired) refl
    | inr (body, written) ↦
        let v1 = (b.put (desired_key id) body v).1 in
        let kept =
          apart.put_other (desired_key id) (desired_key j) body v
            (desired_key-differs id j other) in
        elim (Option-cases (b.put (desired_key id) body v).0) [
          | inl lost ↦ rw (written, set_desired) (rw lost kept)
          | inr (n, put) ↦
              let audit = laws.audit_keeps id (codes "desired") n body (desired_key j) v1 ∙ kept in
              elim (Bool-cases (b.audit id (codes "desired") n body v1).0) [
                | inl audited ↦ rw (written, set_desired) (rw put (rw audited audit))
                | inr unaudited ↦ rw (written, set_desired) (rw put (rw unaudited audit))
              ]
        ]
  ]

  push_keeps :
      (id k : Text) (d : Desired F) (v : V)
      → (b.get k (Reconciler.publish_desired b.desired send id d v).1).0 ≡ (b.get k v).0
  unfolding Reconciler.publish_desired
  push_keeps id k d v = elim (Option-cases (b.desired.marshal d)) [
    | inl unwritten ↦ rw (unwritten, Reconciler.publish_desired) refl
    | inr (body, written) ↦ rw (written, Reconciler.publish_desired) (apart.send_keeps _ body k v)
  ]

  publish-entry :
      (r : Rollout F) (event : EventType) (what : Detail F) (w : World V) (j : Text)
      → entry (publish (backed c answers (shadowed b send sv)) w r event what) j ≡ entry w j
  unfolding publish publish_to
  publish-entry r event what w j = elim (Option-cases sv.publish_event) [
    | inl silent ↦ rw silent refl
    | inr (loud, e) ↦
        rw e (apart.event_keeps loud _ (desired_key j) _ e ∙ apart.now_keeps (desired_key j) w.rest)
  ]

  entry-ShadowLaws : ShadowLaws (backed c answers (shadowed b send sv)) entry
  unfolding publish_desired push_to
  entry-ShadowLaws = record {
    set_other = λ id j d w other. set_desired-other id j d w.rest other;
    push_keeps = λ id j d w. push_keeps id (desired_key j) d w.rest;
    event_keeps = publish-entry;
    state_keeps = λ id s w j. apart.database_keeps (desired_key j) w.rest;
  }

  -- Each write of `d` for this device is taken, with its audit.
  abbrev pub Taken : Text → Text → Type 0
  Taken id body =
      (v : V)
      → (n : ℕ) × ((b.put (desired_key id) body v).0 ≡ some n)
        × ((b.audit id (codes "desired") n body (b.put (desired_key id) body v).1).0 ≡ true)

  -- This entry is `body`.
  abbrev Own : Text → Option (Option (Text × ℕ)) → Type 0
  Own body e = (n : ℕ) × (e ≡ some (some (body, n)))

  set_desired-Own :
      (id body : Text) (d : Desired F) (v : V)
      → b.desired.marshal (stored d) ≡ some body
      → Taken id body
      → (p : Desired F) × (answer_of (set_desired b id d v).0 ≡ some p)
        × Own body (b.get (desired_key id) (set_desired b id d v).1).0
  unfolding set_desired
  set_desired-Own id body d v written taken =
      let (n, put, audited) = taken v in
      let v1 = (b.put (desired_key id) body v).1 in
      let found =
        laws.audit_keeps id (codes "desired") n body (desired_key id) v1
        ∙ laws.holds (desired_key id) body n v put in
      rw (written, set_desired) (rw put (rw audited (at_revision (stored d) n, refl, (n, found))))

  Own-get_desired :
      (id body : Text) (d : Desired F) (v : V)
      → b.desired.unmarshal body ≡ some (as_json (stored d))
      → Own body (b.get (desired_key id) v).0
      → (n : ℕ) × ((get_desired b id v).0 ≡ ok (at_revision (as_json (stored d)) n, n))
  unfolding get_desired
  Own-get_desired id body d v back (n, found) = (n, rw (found, get_desired) (rw back refl))

  -- The bucket holds what was put, and no other call, nor a put under another key, touches an entry:
  -- after a rollback of targets that are of distinct devices, for each target that had a desired
  -- configuration before the rollout, which JSON reads back but for an empty list of sensors, and
  -- whose writes are taken with their audits, GetDesired answers that configuration again, with no
  -- sensors in place of an empty list of them, whatever fails for the other targets, in the database
  -- and on the way to the devices.
  pub rollback-reverts :
      (fl : Float F) (stale : ℕ) (e : Engine F (World V)) (r : Rollout F) (ts : List (Target F))
      (why : List (Reason F)) (t : Target F) (d : Desired F) (body : Text)
      → IsDistinct (device_ids ts)
      → In t ts
      → t.pre_desired ≡ some d
      → b.desired.marshal (stored d) ≡ some body
      → ReadsBack b.desired (stored d)
      → Taken t.device_id body
      → let sv' = backed c answers (shadowed b send sv) in
        let v = (rollback_locked fl sv' stale e r ts why).world.rest in
        (n : ℕ) × ((get_desired b t.device_id v).0 ≡ ok (at_revision (as_json (stored d)) n, n))
  rollback-reverts fl stale e r ts why t d body dist member had written reads taken =
      let sv' = backed c answers (shadowed b send sv) in
      Own-get_desired t.device_id body d (rollback_locked fl sv' stale e r ts why).world.rest
        (reads body written)
        (rollback_locked-Own fl sv' stale entry entry-ShadowLaws (Own body) e r ts why t d dist
          member had (λ w. set_desired-Own t.device_id body d w.rest written taken))
