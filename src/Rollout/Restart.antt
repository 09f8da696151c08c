-- ===== src/Rollout/Restart.antt =====
-- A restart of the control plane: a new engine that resumes from the table of rollouts holds what the
-- old one held.
use sense_grid.Common.{
  ℕ, ◌≡◌, refl, sym, ap, ◌∙◌, ◌⊎◌, inl, inr, Bool, true, false, some, List, [], ◌∷◌, ◌++◌, text_Eq,
  Text, lookup, insert, Float, Bool-cases, Option-cases, ok, Result-cases, All,
}
use mathlib.Core.Option
use sense_grid.Rollout.Types.{
  Rollout, State, running, paused, is_running, is_paused, EventType, paused_event, resumed_event,
  stage_started, stage_index, no_detail,
}
use sense_grid.Rollout.Validate.{validate}
use sense_grid.Rollout.Services.{Services}
use sense_grid.Rollout.Engine.{Engine, new_engine, with_world, put, apply_stage}
use sense_grid.Rollout.Commands.{create, set_state, pause, resume, abort, resume_all, started}
use sense_grid.Rollout.Invariant.{
  Call, ticks, creates, pauses, resumes, aborts, resumes_all, step, run,
}
use sense_grid.Rollout.Tables.{RolloutRow, Tables, Columns, is_open, has_id}
use sense_grid.Rollout.Store
use sense_grid.Rollout.Store.{row_of}
use sense_grid.Rollout.Backed.{World, Answers, backed, no_error}
use sense_grid.Rollout.Frame.{apply_stage-rollouts}
use sense_grid.Rollout.Rows.{ReadsBack, Distinct, plain, live}
use sense_grid.Rollout.Listing.{Readable}
use sense_grid.Rollout.Agreement.{Agrees-id, Agrees-eq, append-Agrees, insert-Agrees, state-Moves}
use sense_grid.Rollout.Persistence.{
  Good, announce-Good, rollback_locked-Good, tick_all-Good, update_state-rollouts,
}
use sense_grid.Rollout.Resuming.{resume_all-Agrees}

module _ {F : Type 0} (c : Columns F) where
  create-rollouts :
      (up : Bool) (n : ℕ) (r : Rollout F) (t : Tables)
      → ((no_error (Store.create c up n r t).0 ≡ false)
          × ((Store.create c up n r t).1.rollouts ≡ t.rollouts))
        ⊎ ((row : RolloutRow) × (row_of c n r ≡ ok row)
            × (has_id r.id t.rollouts ≡ false)
            × (no_error (Store.create c up n r t).0 ≡ true)
            × ((Store.create c up n r t).1.rollouts ≡ t.rollouts ++ row ∷ []))
  unfolding Store.create
  create-rollouts up n r t = elim (Result-cases (row_of c n r)) [
    | inl (e, bad) ↦ rw (bad, Store.create) (inl (refl, refl))
    | inr (row, made) ↦
        rw (made, Store.create)
          (elim (Bool-cases up) [
            | inr down ↦ rw down (inl (refl, refl))
            | inl working ↦ rw working (elim (Bool-cases (has_id r.id t.rollouts)) [
              | inl taken ↦ rw taken (inl (refl, refl))
              | inr fresh ↦ rw fresh (inr (row, refl, refl, refl, refl))
            ])
          ])
  ]

-- The documents of a rollout that is created are read back as they were written.
abbrev pub Documents : {F : Type 0} → Columns F → Call F → Type 0
Documents c (creates r) = ReadsBack c r
Documents c _ = Unit {0}

module _ {F V : Type 0} (fl : Float F) (c : Columns F) (answers : Answers V) (sv : Services F V)
    (stale : ℕ) (up : (v : V) → (answers v).0 ≡ true) where
  create-Good :
      (e : Engine F (World V)) (r : Rollout F)
      → ReadsBack c r
      → Good fl c answers sv stale up e
      → Good fl c answers sv stale up (create fl (backed c answers sv) stale e r).1
  unfolding create
  create-Good e r back g =
      let sv' = backed c answers sv in
      let (id, w1) = sv'.new_id e.world in
      let (t, w2) = sv'.now w1 in
      let r' = started r id t in
      let w3 = (sv'.create r' w2).1 in
      let (ok_up, n, v) = answers w2.rest in
      let e' = apply_stage fl sv' stale (with_world e w3) r' in
      let (same, kept) = apply_stage-rollouts fl c answers sv stale (with_world e w3) r' in
      elim (Option-cases (validate r)) [
        | inr (why, bad) ↦ rw (bad, create) g
        | inl good ↦
            rw (good, create)
              (elim (create-rollouts c ok_up n r' w2.tables) [
                | inl (lost, untouched) ↦ rw lost (Agrees-eq c _ _ _ _ g refl untouched)
                | inr (row, made, fresh, saved, added) ↦ rw saved (
                    announce-Good fl c answers sv stale up (put e' r') r' stage_started
                      (stage_index 0)
                      (Agrees-eq c _ _ _ _
                        (append-Agrees c e.active e.world.tables.rollouts r' n row g
                          (record {
                            cohort = back.cohort;
                            desired = back.desired;
                            stages = back.stages;
                            criteria = back.criteria;
                          })
                          made refl fresh)
                        (ap (insert r'.id r') same) (kept ∙ added)))
              ])
      ]

  set_state-Good :
      (e : Engine F (World V)) (r : Rollout F) (s : State) (event : EventType)
      → Good fl c answers sv stale up e
      → lookup r.id e.active ≡ some r
      → is_open s ≡ true
      → Good fl c answers sv stale up (set_state fl (backed c answers sv) stale e r s event).1
  unfolding set_state
  set_state-Good e r s event g found up_s =
      let (ok_up, n, v) = answers e.world.rest in
      let (saved, w) = (backed c answers sv).update_state r.id s e.world in
      let r' : Rollout F = record r { state = s } in
      let e' = put (with_world e w) r' in
      let g' : Good fl c answers sv stale up e' =
        Agrees-eq c _ _ _ _
          (insert-Agrees c e.active e.world.tables.rollouts r _ _ (state-Moves c s n) g found r'
            refl up_s)
          refl (update_state-rollouts c ok_up n r.id s e.world.tables (up e.world.rest)) in
      elim (Bool-cases saved) [
        | inl answered ↦
            rw answered (announce-Good fl c answers sv stale up e' r' event no_detail g')
        | inr lost ↦ rw lost g'
      ]

  pause-Good :
      (e : Engine F (World V)) (id : Text)
      → Good fl c answers sv stale up e
      → Good fl c answers sv stale up (pause fl (backed c answers sv) stale e id).1
  unfolding pause
  pause-Good e id g = elim (Option-cases (lookup id e.active)) [
    | inl gone ↦ rw (gone, pause) g
    | inr (r, found) ↦
        let (_, same, _) = Agrees-id c e.active e.world.tables.rollouts id r g found in
        rw (found, pause)
          (elim (Bool-cases (is_running r.state)) [
            | inr other ↦ rw other g
            | inl going ↦ rw going (
                set_state-Good e r paused paused_event g
                  (ap (λ (k : Text). lookup k e.active) same ∙ found) refl)
          ])
  ]

  resume-Good :
      (e : Engine F (World V)) (id : Text)
      → Good fl c answers sv stale up e
      → Good fl c answers sv stale up (resume fl (backed c answers sv) stale e id).1
  unfolding resume
  resume-Good e id g = elim (Option-cases (lookup id e.active)) [
    | inl gone ↦ rw (gone, resume) g
    | inr (r, found) ↦
        let (_, same, _) = Agrees-id c e.active e.world.tables.rollouts id r g found in
        rw (found, resume)
          (elim (Bool-cases (is_paused r.state)) [
            | inr other ↦ rw other g
            | inl halted ↦ rw halted (
                set_state-Good e r running resumed_event g
                  (ap (λ (k : Text). lookup k e.active) same ∙ found) refl)
          ])
  ]

  abort-Good :
      (e : Engine F (World V)) (id : Text)
      → Good fl c answers sv stale up e
      → Good fl c answers sv stale up (abort fl (backed c answers sv) stale e id).1
  unfolding abort
  abort-Good e id g =
      let (listed, w) = (backed c answers sv).list_targets id e.world in
      elim (Option-cases (lookup id e.active)) [
        | inl gone ↦ rw (gone, abort) g
        | inr (r, found) ↦
            let (_, same, _) = Agrees-id c e.active e.world.tables.rollouts id r g found in
            rw (found, abort)
              (elim (Option-cases listed) [
                | inl lost ↦ rw lost g
                | inr (ts, read) ↦ rw read (
                    rollback_locked-Good fl c answers sv stale up (with_world e w) r ts _ g
                      (ap (λ (k : Text). lookup k e.active) same ∙ found))
              ])
      ]

  pub step-Good :
      (call : Call F) (e : Engine F (World V))
      → Documents c call
      → Good fl c answers sv stale up e
      → Good fl c answers sv stale up (step fl (backed c answers sv) stale call e)
  unfolding step
  step-Good (ticks order) e b g = tick_all-Good fl c answers sv stale up order e g
  step-Good (creates r) e b g = create-Good e r b g
  step-Good (pauses id) e b g = pause-Good e id g
  step-Good (resumes id) e b g = resume-Good e id g
  step-Good (aborts id) e b g = abort-Good e id g
  step-Good resumes_all e b g =
      (resume_all-Agrees fl c answers sv stale e (up e.world.rest) g.distinct g.readable
        (λ id. inr (g.held id))).1

  run-Good :
      (cs : List (Call F)) (e : Engine F (World V))
      → All (Documents c) cs
      → Good fl c answers sv stale up e
      → Good fl c answers sv stale up (run fl (backed c answers sv) stale cs e)
  unfolding run
  run-Good [] e b g = g
  run-Good (call ∷ cs) e (b, bs) g =
      run-Good cs (step fl (backed c answers sv) stale call e) bs (step-Good call e b g)

  -- Where the database answers every statement, and the documents of each rollout that is created
  -- read back as they were written: whatever calls a control plane served since it came up on a
  -- table whose ids are distinct and whose rows can be scanned, a new one that comes up on the
  -- tables of that moment resumes without an error, and holds under each id the rollout that the
  -- old one held, up to the times created_at and updated_at.
  pub run-resume_all :
      (cs : List (Call F)) (w : World V)
      → Distinct w.tables.rollouts
      → Readable c w.tables.rollouts
      → All (Documents c) cs
      → let sv' = backed c answers sv in
        let e = run fl sv' stale cs (resume_all fl sv' stale (new_engine fl sv' stale w)).1 in
        let (done, e') = resume_all fl sv' stale (new_engine fl sv' stale e.world) in
        (done ≡ true)
        × ((id : Text)
            → Option.map plain (lookup id e'.active) ≡ Option.map plain (lookup id e.active))
  unfolding new_engine
  run-resume_all cs w d read b =
      let sv' = backed c answers sv in
      let (_, g0, _) =
        resume_all-Agrees fl c answers sv stale (new_engine fl sv' stale w) (up w.rest) d read
          (λ id. inl refl) in
      let e = run fl sv' stale cs (resume_all fl sv' stale (new_engine fl sv' stale w)).1 in
      let g = run-Good cs (resume_all fl sv' stale (new_engine fl sv' stale w)).1 b g0 in
      let (done, g', same) =
        resume_all-Agrees fl c answers sv stale (new_engine fl sv' stale e.world) (up e.world.rest)
          g.distinct g.readable (λ id. inl refl) in
      (done, λ id. g'.held id ∙ ap (λ (t : Tables). live c id t.rollouts) same ∙ sym (g.held id))
