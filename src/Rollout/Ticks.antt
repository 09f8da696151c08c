-- ===== src/Rollout/Ticks.antt =====
-- One pass of the ticker over the active rollouts.
use sense_grid.Common.{
  IsDistinct, ℕ, ◌+◌, ◌<◌, ◌≡◌, refl, sym, subst, ap, ◌∙◌, ◌⊎◌, inl, inr, true, false, some, List,
  [], ◌∷◌, arith, ◌==◌, text_Eq, text_eq_iff, ==_refl, Text, length, contains, lookup,
  lookup-insert, lookup-delete, Float, Bool-cases, Option-cases,
}
use sense_grid.Rollout.Types.{Rollout, paused, is_running}
use sense_grid.Rollout.Services.{Services}
use sense_grid.Rollout.Engine.{Engine, visit, tick_all, next_stage}
use sense_grid.Rollout.Lifecycle.{Inv, Ticked, kept, ended, moved, lookup-AllLive, tick_one-Ticked}
use sense_grid.Rollout.Invariant.{visit-Inv}

-- What one pass may leave of a rollout r: itself, or, if it runs and has a further stage, r at
-- that stage.
abbrev pub IsNext : {F : Type 0} → Rollout F → Rollout F → Type 0
IsNext r r' =
    (r' ≡ r)
    ⊎ ((t : ℕ) × (is_running r.state ≡ true)
        × (r.current_stage_index + 1 < length r.stages)
        × (r' ≡ next_stage r t))

Ticked-other :
    {F : Type 0} (r : Rollout F) (old new : List (Text × Rollout F)) (j : Text)
    → Ticked r old new
    → (r.id == j) ≡ false
    → lookup j new ≡ lookup j old
Ticked-other r old new j (kept e) d = ap (lookup j) e
Ticked-other r old new j (ended up e) d = ap (lookup j) e ∙ rw (lookup-delete r.id j old, d)
Ticked-other r old new j (moved t up h e) d =
    ap (lookup j) e ∙ rw (lookup-insert r.id j (next_stage r t) old, d)

Ticked-own :
    {F : Type 0} (r : Rollout F) (old new : List (Text × Rollout F)) (r' : Rollout F)
    → Ticked r old new
    → lookup r.id old ≡ some r
    → lookup r.id new ≡ some r'
    → IsNext r r'
Ticked-own r old new r' (kept e) f g = inl (ground (arith, ap (lookup r.id) e))
Ticked-own r old new r' (ended up e) f g =
    ground (arith, ap (lookup r.id) e, lookup-delete r.id r.id old, ==_refl r.id)
Ticked-own r old new r' (moved t up h e) f g = inr (
  t,
  up,
  h,
  ground (arith, ap (lookup r.id) e, lookup-insert r.id r.id (next_stage r t) old, ==_refl r.id),
)

module _ {F W : Type 0} (fl : Float F) (sv : Services F W) (stale_after : ℕ) where
  pub visit-other :
      (id j : Text) (e : Engine F W)
      → Inv e
      → (j == id) ≡ false
      → lookup id (visit fl sv stale_after j e).active ≡ lookup id e.active
  unfolding visit
  visit-other id j e v d = elim (Option-cases (lookup j e.active)) [
    | inl gone ↦ rw (gone, visit)
    | inr (x, found) ↦
        let (same, l) = lookup-AllLive j e.active x v.live found in
        rw (found, visit)
          (Ticked-other x e.active _ id (tick_one-Ticked fl sv stale_after e x l).0 (rw (← same) d))
  ]

  visit-own :
      (id : Text) (e : Engine F W) (r : Rollout F)
      → Inv e
      → lookup id e.active ≡ some r
      → (id ≡ r.id) × Ticked r e.active (visit fl sv stale_after id e).active
  unfolding visit
  visit-own id e r v found =
      let (same, l) = lookup-AllLive id e.active r v.live found in
      (same, rw (found, visit) (tick_one-Ticked fl sv stale_after e r l).0)

  visit-paused :
      (id j : Text) (e : Engine F W) (r : Rollout F)
      → Inv e
      → lookup id e.active ≡ some r
      → r.state ≡ paused
      → lookup id (visit fl sv stale_after j e).active ≡ some r
  visit-paused id j e r v found p = elim (Bool-cases (j == id)) [
    | inr d ↦ visit-other id j e v d ∙ found
    | inl same ↦
        let here : j ≡ id = (text_eq_iff j id).0 same in
        rw here (stays (visit-own id e r v found).1)
  ]
    where
      stays :
          Ticked r e.active (visit fl sv stale_after id e).active
          → lookup id (visit fl sv stale_after id e).active ≡ some r
      stays (kept q) = ap (lookup id) q ∙ found
      stays (ended up q) = ground arith
      stays (moved t up h q) = ground arith

  -- A paused rollout stands in `active` as it was, after a pass in any order.
  pub tick_all-paused :
      (order : List Text) (e : Engine F W) (id : Text) (r : Rollout F)
      → Inv e
      → lookup id e.active ≡ some r
      → r.state ≡ paused
      → lookup id (tick_all fl sv stale_after order e).active ≡ some r
  unfolding tick_all
  tick_all-paused [] e id r v found p = found
  tick_all-paused (j ∷ order) e id r v found p =
      tick_all-paused order (visit fl sv stale_after j e) id r (visit-Inv fl sv stale_after j e v)
        (visit-paused id j e r v found p) p

  tick_all-other :
      (order : List Text) (e : Engine F W) (id : Text)
      → Inv e
      → contains id order ≡ false
      → lookup id (tick_all fl sv stale_after order e).active ≡ lookup id e.active
  unfolding tick_all
  tick_all-other [] e id v c = refl
  tick_all-other (j ∷ order) e id v c =
      tick_all-other order (visit fl sv stale_after j e) id (visit-Inv fl sv stale_after j e v)
        (ground arith)
      ∙ visit-other id j e v (ground arith)

  -- A pass that visits no id twice leaves each rollout that is still active as it was, or, if it
  -- was running and had a further stage, at the next stage: no stage is skipped.
  pub tick_all-IsNext :
      (order : List Text) (e : Engine F W) (id : Text) (r r' : Rollout F)
      → Inv e
      → IsDistinct order
      → lookup id e.active ≡ some r
      → lookup id (tick_all fl sv stale_after order e).active ≡ some r'
      → IsNext r r'
  unfolding tick_all
  tick_all-IsNext [] e id r r' v d found after = inl (ground arith)
  tick_all-IsNext (j ∷ order) e id r r' v d found after =
      let e' = visit fl sv stale_after j e in
      let v' = visit-Inv fl sv stale_after j e v in
      elim (Bool-cases (j == id)) [
        | inr other ↦
            tick_all-IsNext order e' id r r' v' d.1 (visit-other id j e v other ∙ found) after
        | inl same ↦
            let here : j ≡ id = (text_eq_iff j id).0 same in
            let (own, t) = visit-own j e r v (rw here found) in
            let absent : contains id order ≡ false = rw here at d.0 in
            let to_own = sym here ∙ own in
            Ticked-own r e.active e'.active r' t
              (subst (λ k. lookup k e.active ≡ some r) to_own found)
              (subst (λ k. lookup k e'.active ≡ some r') to_own
                (sym (tick_all-other order e' id v' absent) ∙ after))
      ]
