-- ===== src/Rollout/Lifecycle.antt =====
-- What every call of the engine keeps of the rollouts that it holds.
use sense_grid.Common.{
  ℕ, zero, suc, ◌+◌, ◌<◌, ◌≡◌, refl, inl, inr, true, false, ◌||◌, some, List, [], ◌∷◌, arith,
  nat_eq, ◌==◌, text_Eq, text_eq_iff, Text, length, get_elem?, lookup, insert, delete, Float,
  Bool-cases, Option-cases,
}
use sense_grid.Rollout.Types.{Rollout, is_running, is_paused, Target, Reason}
use sense_grid.Rollout.Services.{Services}
use sense_grid.Rollout.Engine.{
  is_baking, Engine, apply_stage, advance_locked, complete_locked, rollback_locked, tick_healthy,
  stage_health, tick_targets, tick_one, next_stage,
}

-- Running or paused, at a stage that there is.
pub record IsLive {F : Type 0} (r : Rollout F) : Type 0 where
  pub unfinished : (is_running r.state || is_paused r.state) ≡ true
  pub stage_exists : r.current_stage_index < length r.stages

-- Each rollout stands under its own id, and is live.
abbrev pub AllLive : {F : Type 0} → List (Text × Rollout F) → Type 0
AllLive [] = Unit {0}
AllLive ((k, r) ∷ m) = (k ≡ r.id) × IsLive r × AllLive m

pub record Inv {F W : Type 0} (e : Engine F W) : Type 0 where
  pub live : AllLive e.active
  pub no_panic : e.panicked ≡ false

module _ {F : Type 0} where
  pub insert-AllLive :
      (r : Rollout F) (m : List (Text × Rollout F))
      → IsLive r
      → AllLive m
      → AllLive (insert r.id r m)
  insert-AllLive r [] l a = (refl, l, tt)
  insert-AllLive r ((k, x) ∷ m) l a = elim (Bool-cases (k == r.id)) [
    | inl e ↦ rw e (refl, l, a.2)
    | inr e ↦ rw e (a.0, a.1, insert-AllLive r m l a.2)
  ]

  pub delete-AllLive : (k : Text) (m : List (Text × Rollout F)) → AllLive m → AllLive (delete k m)
  delete-AllLive k [] a = tt
  delete-AllLive k ((j, x) ∷ m) a = elim (Bool-cases (j == k)) [
    | inl e ↦ rw e (delete-AllLive k m a.2)
    | inr e ↦ rw e (a.0, a.1, delete-AllLive k m a.2)
  ]

  pub lookup-AllLive :
      (k : Text) (m : List (Text × Rollout F)) (r : Rollout F)
      → AllLive m
      → lookup k m ≡ some r
      → (k ≡ r.id) × IsLive r
  lookup-AllLive k [] r a e = cc
  lookup-AllLive k ((j, x) ∷ m) r a e = ground (arith, text_eq_iff j k, lookup-AllLive k m r a.2)

-- What one tick may make of `active` for a rollout r of it.
pub data Ticked {F : Type 0} (r : Rollout F) (old new : List (Text × Rollout F)) : Type 0 where
  kept : new ≡ old → Ticked r old new
  ended : is_running r.state ≡ true → new ≡ delete r.id old → Ticked r old new
  moved :
      (t : ℕ)
      → is_running r.state ≡ true
      → r.current_stage_index + 1 < length r.stages
      → new ≡ insert r.id (next_stage r t) old
      → Ticked r old new

get_elem?-some :
    {A : Type 0} (xs : List A) (i : ℕ) → i < length xs → (x : A) × (get_elem? xs i ≡ some x)
get_elem?-some [] i l = elim l [ ]
get_elem?-some (x ∷ xs) zero l = (x, refl)
get_elem?-some (x ∷ xs) (suc i) l = get_elem?-some xs i (omega arith)

module _ {F W : Type 0} (fl : Float F) (sv : Services F W) (stale_after : ℕ) where
  -- applyStage leaves `active` alone, and does not panic at a stage that there is.
  pub apply_stage_keeps :
      (e : Engine F W) (r : Rollout F)
      → r.current_stage_index < length r.stages
      → ((apply_stage fl sv stale_after e r).active ≡ e.active)
        × ((apply_stage fl sv stale_after e r).panicked ≡ e.panicked)
  unfolding apply_stage
  apply_stage_keeps e r l =
      let (s, found) = get_elem?-some r.stages r.current_stage_index l in ground arith

  pub advance_effect :
      (e : Engine F W) (r : Rollout F)
      → r.current_stage_index + 1 < length r.stages
      → let e' = advance_locked fl sv stale_after e r in
        (e'.active ≡ insert r.id (next_stage r (sv.now e.world).0) e.active)
        × (e'.panicked ≡ e.panicked)
  unfolding advance_locked
  advance_effect e r h = apply_stage_keeps _ (next_stage r (sv.now e.world).0) h

  pub ended_effect :
      (e : Engine F W) (r : Rollout F) (ts : List (Target F)) (why : List (Reason F))
      → ((complete_locked fl sv stale_after e r).active ≡ delete r.id e.active)
        × ((complete_locked fl sv stale_after e r).panicked ≡ e.panicked)
        × ((rollback_locked fl sv stale_after e r ts why).active ≡ delete r.id e.active)
        × ((rollback_locked fl sv stale_after e r ts why).panicked ≡ e.panicked)
  unfolding complete_locked rollback_locked
  ended_effect e r ts why = (refl, refl, refl, refl)

  healthy-Ticked :
      (e : Engine F W) (r : Rollout F)
      → IsLive r
      → is_running r.state ≡ true
      → Ticked r e.active (tick_healthy fl sv stale_after e r).active
        × ((tick_healthy fl sv stale_after e r).panicked ≡ e.panicked)
  unfolding tick_healthy
  healthy-Ticked e r l up =
      let (stage, found) = get_elem?-some r.stages r.current_stage_index l.stage_exists in
      let e' : Engine F W = record e { world = (sv.now e.world).1 } in
      rw (found, tick_healthy)
        (elim (Bool-cases
          (is_baking (sv.now e.world).0 r.current_stage_started_at stage.bake_duration)) [
            | inl baking ↦ rw baking (kept refl, refl)
            | inr baked ↦
                rw baked (elim (Bool-cases (nat_eq (r.current_stage_index + 1) (length r.stages))) [
                  | inl last ↦ let (a, p, _, _) = ended_effect e' r [] [] in rw last (ended up a, p)
                  | inr more ↦
                      let h : r.current_stage_index + 1 < length r.stages =
                        ground (arith, l.stage_exists) in
                      let (a, p) = advance_effect e' r h in
                      rw more (moved (sv.now (sv.now e.world).1).0 up h a, p)
                ])
          ])

  targets-Ticked :
      (e : Engine F W) (r : Rollout F) (ts : List (Target F))
      → IsLive r
      → is_running r.state ≡ true
      → Ticked r e.active (tick_targets fl sv stale_after e r ts).active
        × ((tick_targets fl sv stale_after e r ts).panicked ≡ e.panicked)
  unfolding tick_targets
  targets-Ticked e r ts l up =
      let (breached, why, w) = stage_health fl sv stale_after r ts e.world in
      elim (Bool-cases breached) [
        | inl bad ↦
            let (_, _, a, p) = ended_effect (record e { world = w }) r ts why in
            rw bad (ended up a, p)
        | inr good ↦ rw good (healthy-Ticked (record e { world = w }) r l up)
      ]

  -- tickOne on a live rollout of `active` does not panic, and either leaves `active` alone, or
  -- takes the rollout off it, or moves it to its next stage; a rollout that is not running is left.
  pub tick_one-Ticked :
      (e : Engine F W) (r : Rollout F)
      → IsLive r
      → Ticked r e.active (tick_one fl sv stale_after e r).active
        × ((tick_one fl sv stale_after e r).panicked ≡ e.panicked)
  unfolding tick_one
  tick_one-Ticked e r l = elim (Bool-cases (is_running r.state)) [
    | inr halted ↦ rw halted (kept refl, refl)
    | inl up ↦
        rw (up, tick_one)
          (elim (Option-cases (sv.list_targets r.id e.world).0) [
            | inl lost ↦ rw lost (kept refl, refl)
            | inr (ts, listed) ↦
                rw listed
                  (targets-Ticked (record e { world = (sv.list_targets r.id e.world).1 }) r ts l up)
          ])
  ]
