-- ===== src/Rollout/Invariant.antt =====
-- The invariant of the engine, over any calls.
use sense_grid.Common.{
  ℕ, ◌<◌, refl, ◌∙◌, ◌≢◌, inl, inr, List, [], ◌∷◌, arith, text_Eq, Text, length, All, lookup,
  insert, Float, Bool-cases, Option-cases,
}
use sense_grid.Rollout.Types.{
  Rollout, State, running, paused, is_running, is_paused, EventType, paused_event, resumed_event,
}
use sense_grid.Rollout.Validate.{validate, validate_iff}
use sense_grid.Rollout.Services.{Services}
use sense_grid.Rollout.Engine.{Engine, visit, tick_all, rollback_locked, next_stage}
use sense_grid.Rollout.Commands.{
  create, set_state, pause, resume, abort, resume_all, add_all, started,
}
use sense_grid.Rollout.Lifecycle.{
  IsLive, AllLive, Inv, Ticked, kept, ended, moved, insert-AllLive, delete-AllLive, lookup-AllLive,
  apply_stage_keeps, tick_one-Ticked,
}

-- Calls of the engine: a tick comes with the order in which it finds the rollouts.
pub data Call (F : Type 0) : Type 0 where
  ticks : List Text → Call F
  creates : Rollout F → Call F
  pauses resumes aborts : Text → Call F
  resumes_all : Call F

-- A call other than ResumeAll.
abbrev pub IsRequest : {F : Type 0} → Call F → Type 0
IsRequest resumes_all = ⊥
IsRequest _ = Unit {0}

Ticked-AllLive :
    {F : Type 0} (r : Rollout F) (old new : List (Text × Rollout F))
    → IsLive r
    → AllLive old
    → Ticked r old new
    → AllLive new
Ticked-AllLive r old new l a (kept e) = rw e a
Ticked-AllLive r old new l a (ended up e) = rw e (delete-AllLive r.id old a)
Ticked-AllLive r old new l a (moved t up h e) =
    rw e (
      insert-AllLive (next_stage r t) old (record { unfinished = l.unfinished; stage_exists = h })
        a)

length-pos : {A : Type 0} (xs : List A) → xs ≢ [] → 0 < length xs
length-pos [] h = absurd (h refl)
length-pos (x ∷ xs) h = omega arith

module _ {F W : Type 0} (fl : Float F) (sv : Services F W) (stale_after : ℕ) where
  unfoldable pub step : Call F → Engine F W → Engine F W
  step (ticks order) e = tick_all fl sv stale_after order e
  step (creates r) e = (create fl sv stale_after e r).1
  step (pauses id) e = (pause fl sv stale_after e id).1
  step (resumes id) e = (resume fl sv stale_after e id).1
  step (aborts id) e = (abort fl sv stale_after e id).1
  step resumes_all e = (resume_all fl sv stale_after e).1

  unfoldable pub run : List (Call F) → Engine F W → Engine F W
  run [] e = e
  run (c ∷ cs) e = run cs (step c e)

  pub visit-Inv : (id : Text) (e : Engine F W) → Inv e → Inv (visit fl sv stale_after id e)
  unfolding visit
  visit-Inv id e v = elim (Option-cases (lookup id e.active)) [
    | inl gone ↦ rw (gone, visit) v
    | inr (r, found) ↦
        let (_, l) = lookup-AllLive id e.active r v.live found in
        let (t, p) = tick_one-Ticked fl sv stale_after e r l in
        rw (found, visit)
          (record { live = Ticked-AllLive r e.active _ l v.live t; no_panic = p ∙ v.no_panic })
  ]

  tick_all-Inv :
      (order : List Text) (e : Engine F W) → Inv e → Inv (tick_all fl sv stale_after order e)
  unfolding tick_all
  tick_all-Inv [] e v = v
  tick_all-Inv (id ∷ order) e v =
      tick_all-Inv order (visit fl sv stale_after id e) (visit-Inv id e v)

  create-Inv : (e : Engine F W) (r : Rollout F) → Inv e → Inv (create fl sv stale_after e r).1
  unfolding create
  create-Inv e r v = elim (Option-cases (validate r)) [
    | inr (why, bad) ↦ rw (bad, create) v
    | inl good ↦
        let (id, w1) = sv.new_id e.world in
        let (t, w2) = sv.now w1 in
        let r' = started r id t in
        let (created, w3) = sv.create r' w2 in
        let first : 0 < length r.stages = length-pos r.stages ((validate_iff r).0 good).1 in
        let (a, p) = apply_stage_keeps fl sv stale_after (record e { world = w3 }) r' first in
        rw (good, create)
          (elim (Bool-cases created) [
            | inr lost ↦ rw lost (record { live = v.live; no_panic = v.no_panic })
            | inl saved ↦ rw saved (record {
              live = rw a (
                  insert-AllLive r' e.active (record { unfinished = refl; stage_exists = first })
                    v.live);
              no_panic = p ∙ v.no_panic;
            })
          ])
  ]

  set_state-Inv :
      (e : Engine F W) (r : Rollout F) (s : State) (event : EventType)
      → Inv e
      → IsLive (record r { state = s })
      → Inv (set_state fl sv stale_after e r s event).1
  unfolding set_state
  set_state-Inv e r s event v l = elim (Bool-cases (sv.update_state r.id s e.world).0) [
    | inl saved ↦ rw saved (record {
      live = insert-AllLive (record r { state = s }) e.active l v.live;
      no_panic = v.no_panic;
    })
    | inr lost ↦ rw lost (record {
      live = insert-AllLive (record r { state = s }) e.active l v.live;
      no_panic = v.no_panic;
    })
  ]

  pub pause-Inv : (e : Engine F W) (id : Text) → Inv e → Inv (pause fl sv stale_after e id).1
  unfolding pause
  pause-Inv e id v = elim (Option-cases (lookup id e.active)) [
    | inl gone ↦ rw (gone, pause) v
    | inr (r, found) ↦
        rw (found, pause)
          (elim (Bool-cases (is_running r.state)) [
            | inr halted ↦ rw halted v
            | inl up ↦ rw up (
                set_state-Inv e r paused paused_event v (record {
                  unfinished = refl;
                  stage_exists = (lookup-AllLive id e.active r v.live found).1.stage_exists;
                }))
          ])
  ]

  resume-Inv : (e : Engine F W) (id : Text) → Inv e → Inv (resume fl sv stale_after e id).1
  unfolding resume
  resume-Inv e id v = elim (Option-cases (lookup id e.active)) [
    | inl gone ↦ rw (gone, resume) v
    | inr (r, found) ↦
        rw (found, resume)
          (elim (Bool-cases (is_paused r.state)) [
            | inr other ↦ rw other v
            | inl halted ↦ rw halted (
                set_state-Inv e r running resumed_event v (record {
                  unfinished = refl;
                  stage_exists = (lookup-AllLive id e.active r v.live found).1.stage_exists;
                }))
          ])
  ]

  abort-Inv : (e : Engine F W) (id : Text) → Inv e → Inv (abort fl sv stale_after e id).1
  unfolding abort rollback_locked
  abort-Inv e id v = elim (Option-cases (lookup id e.active)) [
    | inl gone ↦ rw (gone, abort) v
    | inr (r, found) ↦
        rw (found, abort)
          (elim (Option-cases (sv.list_targets id e.world).0) [
            | inl lost ↦ rw lost (record { live = v.live; no_panic = v.no_panic })
            | inr (ts, listed) ↦
                rw listed
                  (record { live = delete-AllLive r.id e.active v.live; no_panic = v.no_panic })
          ])
  ]

  pub add_all-AllLive :
      (rs : List (Rollout F)) (e : Engine F W)
      → All IsLive rs
      → Inv e
      → Inv (add_all fl sv stale_after rs e)
  unfolding add_all
  add_all-AllLive [] e a v = v
  add_all-AllLive (r ∷ rs) e a v =
      add_all-AllLive rs (record e { active = insert r.id r e.active }) a.1
        (record { live = insert-AllLive r e.active a.0 v.live; no_panic = v.no_panic })

  pub step-Inv : (c : Call F) (e : Engine F W) → IsRequest c → Inv e → Inv (step c e)
  unfolding step
  step-Inv (ticks order) e h v = tick_all-Inv order e v
  step-Inv (creates r) e h v = create-Inv e r v
  step-Inv (pauses id) e h v = pause-Inv e id v
  step-Inv (resumes id) e h v = resume-Inv e id v
  step-Inv (aborts id) e h v = abort-Inv e id v
  step-Inv resumes_all e h v = absurd h

  pub run-Inv : (cs : List (Call F)) (e : Engine F W) → All IsRequest cs → Inv e → Inv (run cs e)
  unfolding run
  run-Inv [] e h v = v
  run-Inv (c ∷ cs) e (h, hs) v = run-Inv cs (step c e) hs (step-Inv c e h v)
