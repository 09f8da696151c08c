-- ===== src/Rollout/Frame.antt =====
-- What the engine does between two statements on the table of rollouts leaves that table alone.
use sense_grid.Common.{
  ℕ, ◌≡◌, refl, ap, ◌∙◌, inl, inr, Bool, Option, none, some, List, [], ◌∷◌, arith, Text, get_elem?,
  Float, Bool-cases, Option-cases,
}
use sense_grid.Shadow.Types.{Desired}
use sense_grid.Rollout.Types.{Rollout, EventType, Detail, Target}
use sense_grid.Rollout.Cohort.{select_cohort, stage_targets}
use sense_grid.Rollout.Services.{Services}
use sense_grid.Rollout.Signals.{
  publish, publish_to, publish_desired, push_to, Counts, count_unhealthy, count_errored,
  evaluate_stage_health, device_ids, last_seen_map, pushed_map,
}
use sense_grid.Rollout.Engine.{
  Engine, push_config, push_all, apply_stage, revert_all, is_target, stage_health,
}
use sense_grid.Rollout.Tables.{Tables, Columns}
use sense_grid.Rollout.Store.{record_target}
use sense_grid.Rollout.Backed.{World, Answers, backed}

module _ {F V : Type 0} (c : Columns F) (answers : Answers V) (sv : Services F V) where
  pub publish-tables :
      (w : World V) (r : Rollout F) (what : EventType) (d : Detail F)
      → (publish (backed c answers sv) w r what d).tables ≡ w.tables
  unfolding publish publish_to
  publish-tables w r what d = elim (Option-cases sv.publish_event) [
    | inl silent ↦ rw silent refl
    | inr (send, loud) ↦ rw loud refl
  ]

  publish_desired-tables :
      (id : Text) (d : Desired F) (w : World V)
      → (publish_desired (backed c answers sv) id d w).tables ≡ w.tables
  unfolding publish_desired push_to
  publish_desired-tables id d w = elim (Option-cases sv.publish_desired) [
    | inl silent ↦ rw silent refl
    | inr (send, loud) ↦ rw loud refl
  ]

  count_unhealthy-tables :
      (stale t : ℕ) (seen : List (Text × Option ℕ)) (pushed : List (Text × ℕ)) (ids : List Text)
      (n : Counts) (w : World V)
      → (count_unhealthy (backed c answers sv) stale t seen pushed ids n w).1.tables ≡ w.tables
  unfolding count_unhealthy
  count_unhealthy-tables stale t seen pushed [] n w = refl
  count_unhealthy-tables stale t seen pushed (id ∷ ids) n w =
      count_unhealthy-tables stale t seen pushed ids _
        (record w { rest = (sv.get_reported id w.rest).1 })

  count_errored-tables :
      (ids : List Text) (since : ℕ) (n : Counts) (w : World V)
      → (count_errored
          (backed c answers sv)
          (backed c answers sv).firing_count
          ids
          since
          n
          w).1.tables
        ≡ w.tables
  unfolding count_errored
  count_errored-tables ids since n w = elim (Option-cases sv.firing_count) [
    | inl silent ↦ rw silent refl
    | inr (count, counted) ↦ rw counted refl
  ]

  pub stage_health-tables :
      (fl : Float F) (stale : ℕ) (r : Rollout F) (ts : List (Target F)) (w : World V)
      → (stage_health fl (backed c answers sv) stale r ts w).2.tables ≡ w.tables
  unfolding stage_health evaluate_stage_health
  stage_health-tables fl stale r ts w =
      let w1 = (backed c answers sv).list_devices w in
      let t = (backed c answers sv).now w1.1 in
      let seen = last_seen_map (elim w1.0 [ none ↦ [] | some ds ↦ ds ]) [] in
      let start : Counts = record { rejected = 0; disconnected = 0; errored = 0 } in
      let counted =
        count_unhealthy (backed c answers sv) stale t.0 seen (pushed_map ts []) (device_ids ts)
          start t.1 in
      count_errored-tables (device_ids ts) r.current_stage_started_at counted.0 counted.1
      ∙ count_unhealthy-tables stale t.0 seen (pushed_map ts []) (device_ids ts) start t.1

record_target-rollouts :
    {F : Type 0} (c : Columns F) (up : Bool) (id : Text) (target : Target F) (t : Tables)
    → (record_target c up id target t).1.rollouts ≡ t.rollouts
unfolding record_target
record_target-rollouts c up id target t = ground arith

module _ {F V : Type 0} (fl : Float F) (c : Columns F) (answers : Answers V) (sv : Services F V)
    (stale : ℕ) where
  push_config-rollouts :
      (r : Rollout F) (id : Text) (w : World V)
      → (push_config fl (backed c answers sv) stale r id w).tables.rollouts ≡ w.tables.rollouts
  unfolding push_config
  push_config-rollouts r id w =
      let (pre, v1) = sv.get_desired id w.rest in
      let (set, v2) = sv.set_desired id r.desired_config v1 in
      let (up, _, _) = answers v2 in
      elim (Option-cases pre) [
        | inl lost ↦ rw (lost, push_config) refl
        | inr ((desired, revision), read) ↦
            rw (read, push_config)
              (elim (Option-cases set) [
                | inl lost ↦ rw lost refl
                | inr (pushed, stored) ↦ rw stored (
                    ap (λ (t : Tables). t.rollouts)
                      (publish_desired-tables c answers sv id pushed _)
                    ∙ record_target-rollouts c up r.id _ w.tables)
              ])
      ]

  push_all-rollouts :
      (r : Rollout F) (existing : List (Target F)) (ids : List Text) (w : World V)
      → (push_all fl (backed c answers sv) stale r existing ids w).tables.rollouts
        ≡ w.tables.rollouts
  unfolding push_all
  push_all-rollouts r existing [] w = refl
  push_all-rollouts r existing (id ∷ ids) w = elim (Bool-cases (is_target id existing)) [
    | inl known ↦ rw (known, push_all) (push_all-rollouts r existing ids w)
    | inr new ↦
        rw (new, push_all)
          (push_all-rollouts r existing ids (push_config fl (backed c answers sv) stale r id w)
            ∙ push_config-rollouts r id w)
  ]

  pub apply_stage-rollouts :
      (e : Engine F (World V)) (r : Rollout F)
      → let e' = apply_stage fl (backed c answers sv) stale e r in
        (e'.active ≡ e.active) × (e'.world.tables.rollouts ≡ e.world.tables.rollouts)
  unfolding apply_stage
  apply_stage-rollouts e r =
      let (all, w1) = (backed c answers sv).list_devices e.world in
      let (existing, w2) = (backed c answers sv).list_targets r.id w1 in
      elim (Option-cases all) [
        | inl lost ↦ rw (lost, apply_stage) (refl, refl)
        | inr (devices, listed) ↦
            rw (listed, apply_stage)
              (elim (Option-cases (get_elem? r.stages r.current_stage_index)) [
                | inl missing ↦ rw missing (refl, refl)
                | inr (stage, found) ↦ rw found (elim (Option-cases existing) [
                  | inl lost ↦ rw lost (refl, refl)
                  | inr (ts, read) ↦
                      let ids = stage_targets (select_cohort devices r.cohort) stage.percent in
                      rw read (refl, push_all-rollouts r ts ids w2)
                ])
              ])
      ]

  pub revert_all-tables :
      (ts : List (Target F)) (w : World V)
      → (revert_all fl (backed c answers sv) stale ts w).tables ≡ w.tables
  unfolding revert_all
  revert_all-tables [] w = refl
  revert_all-tables (t ∷ ts) w = elim (Option-cases t.pre_desired) [
    | inl new ↦ rw (new, revert_all) (revert_all-tables ts w)
    | inr (desired, had) ↦
        let (set, v1) = sv.set_desired t.device_id desired w.rest in
        let w1 : World V = record w { rest = v1 } in
        rw (had, revert_all)
          (elim (Option-cases set) [
            | inl lost ↦ rw lost (revert_all-tables ts w1)
            | inr (pushed, stored) ↦ rw stored (
                revert_all-tables ts (publish_desired (backed c answers sv) t.device_id pushed w1)
                ∙ publish_desired-tables c answers sv t.device_id pushed w1)
          ])
  ]
