-- ===== src/Rollout/Commands.antt =====
-- The calls that the API makes of the engine of internal/rollout/engine.go, and ResumeAll.
use sense_grid.Common.{
  ℕ, Bool, true, false, Option, none, some, List, [], ◌∷◌, if◌then◌else◌, text_Eq, Text, lookup,
  Result, ok, err, Float,
}
use sense_grid.Rollout.Types.{
  Rollout, State, running, paused, aborted, is_running, is_paused, EventType, stage_started,
  paused_event, resumed_event, no_detail, stage_index, manually_aborted,
}
use sense_grid.Rollout.Validate.{Invalid, validate}
use sense_grid.Rollout.Services.{Services}
use sense_grid.Rollout.Engine.{Engine, with_world, put, announce, apply_stage, rollback_locked}

pub data Error : Type 0 where
  invalid : Invalid → Error
  not_running not_paused not_active store_failed : Error

-- What Create fills in.
abbrev pub started : {F : Type 0} → Rollout F → Text → ℕ → Rollout F
started r id t = record r {
  id = id;
  state = running;
  current_stage_index = 0;
  current_stage_started_at = t;
}

module _ {F W : Type 0} (fl : Float F) (sv : Services F W) (stale_after : ℕ) where
  open sv use {now as clock}

  unfoldable pub create : Engine F W → Rollout F → Result Error (Rollout F) × Engine F W
  unfolding announce
  create e r =
      let (id, w1) = sv.new_id e.world in
      let (t, w2) = clock w1 in
      let r' = started r id t in
      let (created, w3) = sv.create r' w2 in
      let e' = apply_stage fl sv stale_after (with_world e w3) r' in
      elim (validate r) [
        | some why ↦ (err (invalid why), e)
        | none ↦
            if created
            then (ok r', announce fl sv stale_after (put e' r') r' stage_started (stage_index 0))
            else (err store_failed, with_world e w3)
      ]

  -- The state is changed through the pointer before UpdateState can fail.
  unfoldable pub set_state :
      Engine F W → Rollout F → State → EventType → Result Error (Rollout F) × Engine F W
  unfolding announce
  set_state e r state event =
      let r' = record r { state = state } in
      let (saved, w) = sv.update_state r.id state e.world in
      let e' = put (with_world e w) r' in
      if saved
      then (ok r', announce fl sv stale_after e' r' event no_detail)
      else (err store_failed, e')

  unfoldable pub pause : Engine F W → Text → Result Error (Rollout F) × Engine F W
  unfolding set_state
  pause e id = elim (lookup id e.active) [
    | none ↦ (err not_running, e)
    | some r ↦
        if is_running r.state then set_state e r paused paused_event else (err not_running, e)
  ]

  unfoldable pub resume : Engine F W → Text → Result Error (Rollout F) × Engine F W
  unfolding set_state
  resume e id = elim (lookup id e.active) [
    | none ↦ (err not_paused, e)
    | some r ↦
        if is_paused r.state then set_state e r running resumed_event else (err not_paused, e)
  ]

  unfoldable pub abort : Engine F W → Text → Result Error (Rollout F) × Engine F W
  abort e id = elim (lookup id e.active) [
    | none ↦ (err not_active, e)
    | some r ↦
        let (listed, w) = sv.list_targets id e.world in
        elim listed [
          | none ↦ (err store_failed, with_world e w)
          | some targets ↦ (
            ok (record r { state = aborted }),
            rollback_locked fl sv stale_after (with_world e w) r targets (manually_aborted ∷ []),
          )
        ]
  ]

  unfoldable pub add_all : List (Rollout F) → Engine F W → Engine F W
  add_all [] e = e
  add_all (r ∷ rs) e = add_all rs (put e r)

  unfoldable pub resume_all : Engine F W → Bool × Engine F W
  unfolding add_all
  resume_all e =
      let (listed, w) = sv.list_non_terminal e.world in
      elim listed [ none ↦ (false, with_world e w) | some rs ↦ (true, add_all rs (with_world e w)) ]

  unfoldable pub get : Engine F W → Text → Option (Option (Rollout F)) × Engine F W
  get e id = elim (lookup id e.active) [
    | some r ↦ (some (some r), e)
    | none ↦ let (found, w) = sv.get id e.world in (found, with_world e w)
  ]
