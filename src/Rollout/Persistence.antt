-- ===== src/Rollout/Persistence.antt =====
-- The engine over its store keeps the map of active rollouts and the table in agreement.
use sense_grid.Common.{
  ℕ, ◌≡◌, refl, ap, ◌∙◌, inl, inr, Bool, true, false, some, List, [], ◌∷◌, text_Eq, Text, lookup,
  Float, Option-cases, nat_eq, length, get_elem?, ◌+◌, if◌then◌else◌, insert, delete,
}
use sense_grid.Rollout.Types.{
  Rollout, State, completed, aborted, is_running, EventType, Detail, Target, Reason, stage_advanced,
  stage_index, health_breached, aborted_event, reasons, completed_event, no_detail,
}
use sense_grid.Rollout.Services.{Services}
use sense_grid.Rollout.Engine.{
  is_baking, Engine, with_world, put, announce, apply_stage, next_stage, advance_locked,
  complete_locked, revert_all, rollback_locked, tick_healthy, stage_health, tick_targets, tick_one,
  visit, tick_all,
}
use sense_grid.Rollout.Tables.{Tables, Columns, is_open, update_row, with_state, with_stage}
use sense_grid.Rollout.Store
use sense_grid.Rollout.Backed.{World, Answers, backed}
use sense_grid.Rollout.Frame.{
  publish-tables, stage_health-tables, apply_stage-rollouts, revert_all-tables,
}
use sense_grid.Rollout.Agreement.{
  Agrees, Agrees-eq, Agrees-id, insert-Agrees, delete-Agrees, state-Moves, stage-Moves,
}

module _ {F : Type 0} (c : Columns F) where
  pub update_state-rollouts :
      (up : Bool) (n : ℕ) (id : Text) (s : State) (t : Tables)
      → up ≡ true
      → (Store.update_state c up n id s t).1.rollouts ≡ update_row id (with_state s n) t.rollouts
  unfolding Store.update_state
  update_state-rollouts up n id s t h = rw h refl

  advance_stage-rollouts :
      (up : Bool) (n : ℕ) (id : Text) (i started_at : ℕ) (t : Tables)
      → up ≡ true
      → (Store.advance_stage c up n id i started_at t).1.rollouts
        ≡ update_row id (with_stage i started_at n) t.rollouts
  unfolding Store.advance_stage
  advance_stage-rollouts up n id i started_at t h = rw h refl

module _ {F V : Type 0} (fl : Float F) (c : Columns F) (answers : Answers V) (sv : Services F V)
    (stale : ℕ) (up : (v : V) → (answers v).0 ≡ true) where
  abbrev pub Good : Engine F (World V) → Type 0
  Good e = Agrees c e.active e.world.tables.rollouts

  either_way : (b : Bool) (x y : Engine F (World V)) → Good x → Good y → Good (if b then x else y)
  either_way true x y gx gy = gx
  either_way false x y gx gy = gy

  pub announce-Good :
      (e : Engine F (World V)) (r : Rollout F) (what : EventType) (d : Detail F)
      → Good e
      → Good (announce fl (backed c answers sv) stale e r what d)
  unfolding announce
  announce-Good e r what d g =
      Agrees-eq c e.active e.active e.world.tables.rollouts _ g refl
        (ap (λ (t : Tables). t.rollouts) (publish-tables c answers sv e.world r what d))

  advance_locked-Good :
      (e : Engine F (World V)) (r : Rollout F)
      → Good e
      → lookup r.id e.active ≡ some r
      → is_open r.state ≡ true
      → Good (advance_locked fl (backed c answers sv) stale e r)
  unfolding advance_locked
  advance_locked-Good e r g found open_r =
      let (t, w1) = (backed c answers sv).now e.world in
      let r' = next_stage r t in
      let (ok_up, n, v) = answers w1.rest in
      let w2 : World V = ((backed c answers sv).advance_stage r.id r'.current_stage_index t w1).1 in
      let moved : Agrees c (insert r.id r' e.active)
          (update_row r.id (with_stage r'.current_stage_index t n) e.world.tables.rollouts) =
        insert-Agrees c e.active e.world.tables.rollouts r _ _
          (stage-Moves c r'.current_stage_index t n) g found r' refl open_r in
      let (same, kept) = apply_stage-rollouts fl c answers sv stale (put (with_world e w2) r') r' in
      let e' = apply_stage fl (backed c answers sv) stale (put (with_world e w2) r') r' in
      announce-Good e' r' stage_advanced (stage_index r'.current_stage_index) (
        Agrees-eq c _ _ _ _ moved same (
          kept
          ∙ advance_stage-rollouts c ok_up n r.id r'.current_stage_index t w1.tables (up w1.rest)))

  complete_locked-Good :
      (e : Engine F (World V)) (r : Rollout F)
      → Good e
      → lookup r.id e.active ≡ some r
      → Good (complete_locked fl (backed c answers sv) stale e r)
  unfolding complete_locked
  complete_locked-Good e r g found =
      let (ok_up, n, v) = answers e.world.rest in
      let w = ((backed c answers sv).update_state r.id completed e.world).1 in
      let e' : Engine F (World V) = record e { active = delete r.id e.active; world = w } in
      announce-Good e' (record r { state = completed }) completed_event no_detail
        (Agrees-eq c _ _ _ _
          (delete-Agrees c e.active e.world.tables.rollouts r _ _ (state-Moves c completed n) g
            found refl)
          refl (update_state-rollouts c ok_up n r.id completed e.world.tables (up e.world.rest)))

  pub rollback_locked-Good :
      (e : Engine F (World V)) (r : Rollout F) (ts : List (Target F)) (why : List (Reason F))
      → Good e
      → lookup r.id e.active ≡ some r
      → Good (rollback_locked fl (backed c answers sv) stale e r ts why)
  unfolding rollback_locked
  rollback_locked-Good e r ts why g found =
      let w1 = revert_all fl (backed c answers sv) stale ts e.world in
      let (ok_up, n, v) = answers w1.rest in
      let kept =
        ap (λ (t : Tables). t.rollouts) (revert_all-tables fl c answers sv stale ts e.world) in
      let r' : Rollout F = record r { state = aborted } in
      let w2 = ((backed c answers sv).update_state r.id aborted w1).1 in
      let e' : Engine F (World V) = record e { active = delete r.id e.active; world = w2 } in
      let e2 = announce fl (backed c answers sv) stale e' r' health_breached (reasons why) in
      announce-Good e2 r' aborted_event (reasons why) (
        announce-Good e' (record r { state = aborted }) health_breached (reasons why)
          (Agrees-eq c _ _ _ _
            (delete-Agrees c e.active e.world.tables.rollouts r _ _ (state-Moves c aborted n) g
              found refl)
            refl
            (update_state-rollouts c ok_up n r.id aborted w1.tables (up w1.rest)
              ∙ ap (update_row r.id (with_state aborted n)) kept)))

  tick_healthy-Good :
      (e : Engine F (World V)) (r : Rollout F)
      → Good e
      → lookup r.id e.active ≡ some r
      → is_open r.state ≡ true
      → Good (tick_healthy fl (backed c answers sv) stale e r)
  unfolding tick_healthy
  tick_healthy-Good e r g found open_r =
      let (t, w) = (backed c answers sv).now e.world in
      let e' = with_world e w in
      elim (Option-cases (get_elem? r.stages r.current_stage_index)) [
        | inl missing ↦ rw (missing, tick_healthy) g
        | inr (stage, at) ↦
            rw (at, tick_healthy)
              (either_way (is_baking t r.current_stage_started_at stage.bake_duration) e' _ g (
                either_way (nat_eq (r.current_stage_index + 1) (length r.stages)) _ _
                  (complete_locked-Good e' r g found) (advance_locked-Good e' r g found open_r)))
      ]

  tick_targets-Good :
      (e : Engine F (World V)) (r : Rollout F) (ts : List (Target F))
      → Good e
      → lookup r.id e.active ≡ some r
      → is_open r.state ≡ true
      → Good (tick_targets fl (backed c answers sv) stale e r ts)
  unfolding tick_targets
  tick_targets-Good e r ts g found open_r =
      let (breached, why, w) = stage_health fl (backed c answers sv) stale r ts e.world in
      let e' = with_world e w in
      let g' : Good e' = Agrees-eq c _ _ _ _ g refl (
        ap (λ (t : Tables). t.rollouts) (stage_health-tables c answers sv fl stale r ts e.world)) in
      either_way breached _ _ (rollback_locked-Good e' r ts why g' found)
        (tick_healthy-Good e' r g' found open_r)

  tick_one-Good :
      (e : Engine F (World V)) (r : Rollout F)
      → Good e
      → lookup r.id e.active ≡ some r
      → is_open r.state ≡ true
      → Good (tick_one fl (backed c answers sv) stale e r)
  unfolding tick_one
  tick_one-Good e r g found open_r =
      let (listed, w) = (backed c answers sv).list_targets r.id e.world in
      either_way (is_running r.state) _ e
        (elim (Option-cases listed) [
          | inl lost ↦ rw lost g
          | inr (ts, read) ↦ rw read (tick_targets-Good (with_world e w) r ts g found open_r)
        ])
        g

  pub visit-Good :
      (id : Text) (e : Engine F (World V))
      → Good e
      → Good (visit fl (backed c answers sv) stale id e)
  unfolding visit
  visit-Good id e g = elim (Option-cases (lookup id e.active)) [
    | inl gone ↦ rw (gone, visit) g
    | inr (r, found) ↦
        let (_, same, open_r) = Agrees-id c e.active e.world.tables.rollouts id r g found in
        rw (found, visit)
          (tick_one-Good e r g (ap (λ (k : Text). lookup k e.active) same ∙ found) open_r)
  ]

  pub tick_all-Good :
      (ids : List Text) (e : Engine F (World V))
      → Good e
      → Good (tick_all fl (backed c answers sv) stale ids e)
  unfolding tick_all
  tick_all-Good [] e g = g
  tick_all-Good (id ∷ ids) e g =
      tick_all-Good ids (visit fl (backed c answers sv) stale id e) (visit-Good id e g)
