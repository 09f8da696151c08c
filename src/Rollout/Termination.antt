-- ===== src/Rollout/Termination.antt =====
-- A rollout that nothing hinders ends.
use sense_grid.Common.{
  ℕ, ◌+◌, ◌<◌, ◌≤◌, ◌≡◌, refl, ap, ◌∙◌, ◌⊎◌, inl, inr, Bool, true, false, not, ◌&&◌, ◌||◌, none,
  some, List, [], ◌∷◌, arith, nat_eq, if◌then◌else◌, ◌==◌, text_Eq, text_eq_iff, ==_refl, Text,
  length, get_elem?, lookup, insert, delete, lookup-insert, lookup-delete, Float, Bool-cases,
  Option-cases,
}
use sense_grid.Rollout.Types.{Rollout, is_running}
use sense_grid.Rollout.Services.{Services}
use sense_grid.Rollout.Engine.{
  is_baking, Engine, next_stage, tick_healthy, stage_health, tick_targets, tick_one, visit,
  tick_all,
}
use sense_grid.Rollout.Lifecycle.{IsLive, Inv, lookup-AllLive, advance_effect, ended_effect}
use sense_grid.Rollout.Invariant.{visit-Inv}
use sense_grid.Rollout.Ticks.{visit-other}

-- Has the stage of a rollout baked at this time?
unfoldable pub is_baked : {F : Type 0} → Rollout F → ℕ → Bool
is_baked r t = elim (get_elem? r.stages r.current_stage_index) [
  | none ↦ false
  | some stage ↦ not (is_baking t r.current_stage_started_at stage.bake_duration)
]

-- How often an id is visited.
unfoldable pub visits : Text → List Text → ℕ
visits id [] = 0
visits id (j ∷ order) = (if j == id then 1 else 0) + visits id order

module _ {F W : Type 0} (fl : Float F) (sv : Services F W) (stale_after : ℕ) where
  -- Does tickOne find its targets, none of the limits exceeded, and the stage baked?
  unfoldable pub is_due : Engine F W → Rollout F → Bool
  unfolding is_baked
  is_due e r =
      let (listed, w) = sv.list_targets r.id e.world in
      is_running r.state && elim listed [
        | none ↦ false
        | some targets ↦
            let (breached, why, w') = stage_health fl sv stale_after r targets w in
            not breached && is_baked r (sv.now w').0
      ]

  unfoldable pub due_at : Text → Engine F W → Bool
  unfolding is_due
  due_at id e = elim (lookup id e.active) [ none ↦ true | some r ↦ is_due e r ]

  -- Each visit of this rollout finds it so, for as long as it is active.
  unfoldable pub IsUnhindered : Text → List Text → Engine F W → Type 0
  unfolding due_at
  IsUnhindered id [] e = Unit {0}
  IsUnhindered id (j ∷ order) e =
      ((not (j == id) || due_at id e) ≡ true) × IsUnhindered id order (visit fl sv stale_after j e)

  -- What a due tick makes of `active`.
  abbrev Advances : Rollout F → Engine F W → Engine F W → Type 0
  Advances r e e' =
      (e'.active ≡ delete r.id e.active)
      ⊎ ((t : ℕ) × (r.current_stage_index + 1 < length r.stages)
          × (e'.active ≡ insert r.id (next_stage r t) e.active))

  healthy-Advances :
      (e : Engine F W) (r : Rollout F)
      → IsLive r
      → is_baked r (sv.now e.world).0 ≡ true
      → Advances r e (tick_healthy fl sv stale_after e r)
  unfolding tick_healthy is_baked
  healthy-Advances e r l baked = elim (Option-cases (get_elem? r.stages r.current_stage_index)) [
    | inl missing ↦ absurd (cc (rw (missing, is_baked) at baked))
    | inr (stage, found) ↦
        let e' : Engine F W = record e { world = (sv.now e.world).1 } in
        rw (found, tick_healthy)
          (elim (Bool-cases
            (is_baking (sv.now e.world).0 r.current_stage_started_at stage.bake_duration)) [
              | inl baking ↦ absurd (cc (rw baking at (rw (found, is_baked) at baked)))
              | inr over ↦
                  rw over
                    (elim (Bool-cases (nat_eq (r.current_stage_index + 1) (length r.stages))) [
                      | inl last ↦ rw last (inl (ended_effect fl sv stale_after e' r [] []).0)
                      | inr more ↦
                          let h : r.current_stage_index + 1 < length r.stages =
                            ground (arith, l.stage_exists) in
                          rw more (
                            inr (
                              (sv.now (sv.now e.world).1).0,
                              h,
                              (advance_effect fl sv stale_after e' r h).0,
                            ))
                    ])
            ])
  ]

  tick_one-Advances :
      (e : Engine F W) (r : Rollout F)
      → IsLive r
      → is_due e r ≡ true
      → Advances r e (tick_one fl sv stale_after e r)
  unfolding tick_one is_due tick_targets
  tick_one-Advances e r l due =
      let (listed, w) = sv.list_targets r.id e.world in
      elim (Bool-cases (is_running r.state)) [
        | inr halted ↦ absurd (cc (rw (halted, is_due) at due))
        | inl up ↦ elim (Option-cases listed) [
          | inl lost ↦ absurd (cc (rw lost at (rw (up, is_due) at due)))
          | inr (ts, read) ↦
              let (breached, why, w') = stage_health fl sv stale_after r ts w in
              elim (Bool-cases breached) [
                | inl bad ↦ absurd (cc (rw bad at (rw read at (rw (up, is_due) at due))))
                | inr good ↦
                    rw (up, tick_one)
                      (rw read (
                        rw (good, tick_targets)
                          (healthy-Advances (record e { world = w' }) r l
                            (rw good at (rw read at (rw (up, is_due) at due))))))
              ]
        ]
      ]

  visit-gone :
      (id j : Text) (e : Engine F W)
      → Inv e
      → lookup id e.active ≡ none
      → lookup id (visit fl sv stale_after j e).active ≡ none
  unfolding visit
  visit-gone id j e v gone = elim (Bool-cases (j == id)) [
    | inr other ↦ visit-other fl sv stale_after id j e v other ∙ gone
    | inl same ↦
        let here : j ≡ id = (text_eq_iff j id).0 same in
        rw (ap (λ (k : Text). lookup k e.active) here ∙ gone, visit) gone
  ]

  tick_all-gone :
      (order : List Text) (e : Engine F W) (id : Text)
      → Inv e
      → lookup id e.active ≡ none
      → lookup id (tick_all fl sv stale_after order e).active ≡ none
  unfolding tick_all
  tick_all-gone [] e id v gone = gone
  tick_all-gone (j ∷ order) e id v gone =
      tick_all-gone order (visit fl sv stale_after j e) id (visit-Inv fl sv stale_after j e v)
        (visit-gone id j e v gone)

  visit-due :
      (id : Text) (e : Engine F W) (r : Rollout F)
      → Inv e
      → lookup id e.active ≡ some r
      → due_at id e ≡ true
      → (id ≡ r.id) × Advances r e (visit fl sv stale_after id e)
  unfolding visit due_at
  visit-due id e r v found due =
      let (same, l) = lookup-AllLive id e.active r v.live found in
      (same, rw (found, visit) (tick_one-Advances e r l (rw (found, due_at) at due)))

  -- A live rollout that every visit finds running, with its targets, within its limits and baked, is
  -- no longer active once it has been visited as often as it has stages left, whatever other
  -- rollouts are visited in between.
  pub tick_all-ends :
      (order : List Text) (e : Engine F W) (id : Text) (r : Rollout F)
      → Inv e
      → lookup id e.active ≡ some r
      → IsUnhindered id order e
      → length r.stages ≤ r.current_stage_index + visits id order
      → lookup id (tick_all fl sv stale_after order e).active ≡ none
  unfolding tick_all IsUnhindered visits
  tick_all-ends [] e id r v found free enough =
      let (_, l) = lookup-AllLive id e.active r v.live found in
      absurd (omega (arith, l.stage_exists, enough))
  tick_all-ends (j ∷ order) e id r v found (due, free) enough =
      let e' = visit fl sv stale_after j e in
      let v' = visit-Inv fl sv stale_after j e v in
      elim (Bool-cases (j == id)) [
        | inr other ↦
            tick_all-ends order e' id r v' (visit-other fl sv stale_after id j e v other ∙ found)
              free (omega (arith, rw other at enough))
        | inl here ↦
            let is_id : j ≡ id = (text_eq_iff j id).0 here in
            let (same, next) = visit-due id e r v found (rw here at due) in
            let to_here = ap (λ (k : Text). (visit fl sv stale_after k e).active) is_id in
            elim next [
              | inl ended ↦ tick_all-gone order e' id v' (
                  ap (lookup id) (to_here ∙ ended)
                  ∙ lookup-delete r.id id e.active
                  ∙ rw (← same) (rw (==_refl id) refl))
              | inr (t, more, moved) ↦
                  tick_all-ends order e' id (next_stage r t) v'
                    (ap (lookup id) (to_here ∙ moved)
                      ∙ lookup-insert r.id id (next_stage r t) e.active
                      ∙ rw (← same) (rw (==_refl id) refl))
                    free (omega (arith, rw here at enough))
            ]
      ]
