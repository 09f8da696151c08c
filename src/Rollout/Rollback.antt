-- ===== src/Rollout/Rollback.antt =====
-- A rollback takes each target back to its configuration from before the rollout.
use sense_grid.Common.{
  IsDistinct, ℕ, ◌≡◌, refl, subst, sym, ap, ◌∙◌, inl, inr, false, some, List, [], ◌∷◌, arith, ◌==◌,
  text_Eq, Text, contains, In, Float, Option-cases,
}
use sense_grid.Shadow.Types.{Desired}
use sense_grid.Rollout.Types.{Rollout, State, Target, Reason, EventType, Detail, aborted}
use sense_grid.Rollout.Services.{Services}
use sense_grid.Rollout.Signals.{publish, publish_desired, device_ids}
use sense_grid.Rollout.Engine.{Engine, revert_all, rollback_locked}

-- For an entry that the world holds of each device: a write of one device does not touch another's,
-- and neither the publishers nor UpdateState touch any.
pub record ShadowLaws {F W E : Type 0} (sv : Services F W) (entry : W → Text → E) : Type 0 where
  pub set_other :
      (id j : Text) (d : Desired F) (w : W)
      → (id == j) ≡ false
      → entry (sv.set_desired id d w).1 j ≡ entry w j
  pub push_keeps :
      (id j : Text) (d : Desired F) (w : W) → entry (publish_desired sv id d w) j ≡ entry w j
  pub event_keeps :
      (r : Rollout F) (event : EventType) (what : Detail F) (w : W) (j : Text)
      → entry (publish sv w r event what) j ≡ entry w j
  pub state_keeps :
      (id : Text) (s : State) (w : W) (j : Text) → entry (sv.update_state id s w).1 j ≡ entry w j

-- Each write of `d` for this device is answered, and leaves an entry of this kind.
abbrev pub Restores :
    {F W E : Type 0} → Services F W → (W → Text → E) → (E → Type 0) → Text → Desired F → Type 0
Restores {F} {W} sv entry Own id d =
    (w : W)
    → (p : Desired F) × ((sv.set_desired id d w).0 ≡ some p)
      × Own (entry (sv.set_desired id d w).1 id)

module _ {F W E : Type 0} (fl : Float F) (sv : Services F W) (stale_after : ℕ)
    (entry : W → Text → E) (laws : ShadowLaws sv entry) (Own : E → Type 0) where
  revert_one :
      (t : Target F) (ts : List (Target F)) (w : W)
      → (w' : W) × (revert_all fl sv stale_after (t ∷ ts) w ≡ revert_all fl sv stale_after ts w')
        × ((j : Text) → (t.device_id == j) ≡ false → entry w' j ≡ entry w j)
  unfolding revert_all
  revert_one t ts w = elim (Option-cases t.pre_desired) [
    | inl fresh ↦ (w, rw fresh, λ j d. refl)
    | inr (d, had) ↦ elim (Option-cases (sv.set_desired t.device_id d w).0) [
      | inl lost ↦ (
        (sv.set_desired t.device_id d w).1,
        rw (had, revert_all) (rw lost),
        λ j e. laws.set_other t.device_id j d w e,
      )
      | inr (p, set) ↦ (
        publish_desired sv t.device_id p (sv.set_desired t.device_id d w).1,
        rw (had, revert_all) (rw set),
        λ j e. laws.push_keeps t.device_id j p _ ∙ laws.set_other t.device_id j d w e,
      )
    ]
  ]

  revert_others :
      (ts : List (Target F)) (w : W) (j : Text)
      → contains j (device_ids ts) ≡ false
      → entry (revert_all fl sv stale_after ts w) j ≡ entry w j
  revert_others [] w j c = unfold revert_all in refl
  revert_others (t ∷ ts) w j c =
      let (w', e, same) = revert_one t ts w in
      ap (λ x. entry x j) e ∙ revert_others ts w' j (ground arith) ∙ same j (ground arith)

  revert_first :
      (t : Target F) (ts : List (Target F)) (w : W) (d : Desired F)
      → IsDistinct (device_ids (t ∷ ts))
      → t.pre_desired ≡ some d
      → Restores sv entry Own t.device_id d
      → Own (entry (revert_all fl sv stale_after (t ∷ ts) w) t.device_id)
  unfolding revert_all
  revert_first t ts w d (fresh, dist) had restores =
      let (p, set, own) = restores w in
      let w' = publish_desired sv t.device_id p (sv.set_desired t.device_id d w).1 in
      let e : revert_all fl sv stale_after (t ∷ ts) w ≡ revert_all fl sv stale_after ts w' =
        rw (had, revert_all) (rw set) in
      let same =
        ap (λ x. entry x t.device_id) e
        ∙ revert_others ts w' t.device_id fresh
        ∙ laws.push_keeps t.device_id t.device_id p _ in
      subst Own (sym same) own

  revert_member :
      (ts : List (Target F)) (w : W) (t : Target F) (d : Desired F)
      → IsDistinct (device_ids ts)
      → In t ts
      → t.pre_desired ≡ some d
      → Restores sv entry Own t.device_id d
      → Own (entry (revert_all fl sv stale_after ts w) t.device_id)
  revert_member [] w t d dist member had restores = elim member [ ]
  revert_member (x ∷ ts) w t d dist (inl here) had restores =
      subst
        (λ y.
          y.pre_desired ≡ some d
          → Restores sv entry Own y.device_id d
          → Own (entry (revert_all fl sv stale_after (x ∷ ts) w) y.device_id))
        here (revert_first x ts w d dist) had restores
  revert_member (x ∷ ts) w t d dist (inr later) had restores =
      let (w', e, _) = revert_one x ts w in
      subst (λ v. Own (entry v t.device_id)) (sym e)
        (revert_member ts w' t d dist.1 later had restores)

  pub rollback_locked-Own :
      (e : Engine F W) (r : Rollout F) (ts : List (Target F)) (why : List (Reason F)) (t : Target F)
      (d : Desired F)
      → IsDistinct (device_ids ts)
      → In t ts
      → t.pre_desired ≡ some d
      → Restores sv entry Own t.device_id d
      → Own (entry (rollback_locked fl sv stale_after e r ts why).world t.device_id)
  unfolding rollback_locked
  rollback_locked-Own e r ts why t d dist member had restores =
      let same =
        laws.event_keeps _ _ _ _ t.device_id
        ∙ laws.event_keeps _ _ _ _ t.device_id
        ∙ laws.state_keeps r.id aborted _ t.device_id in
      subst Own (sym same) (revert_member ts e.world t d dist member had restores)
