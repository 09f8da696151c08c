-- ===== src/Rollout/Safety.antt =====
-- A control plane over its own tables: it comes up, resumes what they hold, and serves calls.
use sense_grid.Common.{
  ℕ, ◌≡◌, refl, sym, ap, subst, ◌∙◌, inl, inr, Bool, true, some, none, List, [], ◌∷◌, text_Eq, Text,
  lookup, Float, Option-cases, Bool-cases, All, In,
}
use mathlib.Core.Option
use sense_grid.Rollout.Types.{Rollout}
use sense_grid.Rollout.Services.{Services}
use sense_grid.Rollout.Engine.{Engine, new_engine, with_world}
use sense_grid.Rollout.Commands.{resume_all}
use sense_grid.Rollout.Lifecycle.{IsLive, Inv, lookup-AllLive}
use sense_grid.Rollout.Invariant.{
  Call, ticks, creates, pauses, resumes, aborts, resumes_all, step, run, IsRequest, add_all-AllLive,
  step-Inv, run-Inv,
}
use sense_grid.Rollout.Tables.{RolloutRow, Columns}
use sense_grid.Rollout.Store
use sense_grid.Rollout.Backed.{World, Answers, backed, value_of}
use sense_grid.Rollout.Rows.{Distinct, plain, live}
use sense_grid.Rollout.Listing.{Readable, list_non_terminal_lem}
use sense_grid.Rollout.Persistence.{Good}
use sense_grid.Rollout.Resuming.{resume_all-Agrees}
use sense_grid.Rollout.Restart.{Documents, step-Good}

-- The running and paused rollouts of the table stand at stages that there are.
abbrev pub OpenLive : {F : Type 0} → Columns F → List RolloutRow → Type 0
OpenLive {F} c rows = (id : Text) (p : Rollout F) → live c id rows ≡ some p → IsLive p

All-In :
    {F : Type 0} (rs : List (Rollout F)) → ((r : Rollout F) → In r rs → IsLive r) → All IsLive rs
All-In [] h = tt
All-In (r ∷ rs) h = (h r (inl refl), All-In rs (λ x m. h x (inr m)))

plain-IsLive : {F : Type 0} (r : Rollout F) → IsLive (plain r) → IsLive r
plain-IsLive r l = record { unfinished = l.unfinished; stage_exists = l.stage_exists }

module _ {F V : Type 0} (fl : Float F) (c : Columns F) (answers : Answers V) (sv : Services F V)
    (stale : ℕ) where
  resume_all-Inv :
      (e : Engine F (World V))
      → Distinct e.world.tables.rollouts
      → Readable c e.world.tables.rollouts
      → OpenLive c e.world.tables.rollouts
      → Inv e
      → Inv (resume_all fl (backed c answers sv) stale e).1
  unfolding resume_all Store.list_non_terminal
  resume_all-Inv e d read opened v =
      let sv' = backed c answers sv in
      let e1 = with_world e (sv'.list_non_terminal e.world).1 in
      let v1 : Inv e1 = record { live = v.live; no_panic = v.no_panic } in
      let (rs, listed, from, _) = list_non_terminal_lem c e.world.tables read d in
      elim (Bool-cases (answers e.world.rest).0) [
        | inl up ↦
            let answered =
              ap (λ (b : Bool). value_of (Store.list_non_terminal c b e.world.tables)) up
              ∙ ap value_of listed in
            rw (answered, resume_all)
              (add_all-AllLive fl sv' stale rs e1
                (All-In rs (λ r m. plain-IsLive r (opened r.id (plain r) (from r m)))) v1)
        | inr down ↦
            let lost : (sv'.list_non_terminal e.world).0 ≡ none =
              ap (λ (b : Bool). value_of (Store.list_non_terminal c b e.world.tables)) down in
            rw (lost, resume_all) v1
      ]

  new_engine-Inv : (w : World V) → Inv (new_engine fl (backed c answers sv) stale w)
  unfolding new_engine
  new_engine-Inv w = record { live = tt; no_panic = refl }

  -- A control plane comes up on a table whose ids are distinct, whose rows can be scanned, and whose
  -- running and paused rollouts are at existing stages, and resumes them: after any calls but another
  -- ResumeAll, whatever the database and the other services answer, no index is out of range, and
  -- each active rollout stands under its own id, is running or paused, and is at an existing stage.
  pub run-resumed-Inv :
      (cs : List (Call F)) (w : World V)
      → Distinct w.tables.rollouts
      → Readable c w.tables.rollouts
      → OpenLive c w.tables.rollouts
      → All IsRequest cs
      → let sv' = backed c answers sv in
        Inv (run fl sv' stale cs (resume_all fl sv' stale (new_engine fl sv' stale w)).1)
  unfolding new_engine
  run-resumed-Inv cs w d read opened requests =
      let sv' = backed c answers sv in
      run-Inv fl sv' stale cs _ requests
        (resume_all-Inv (new_engine fl sv' stale w) d read opened (new_engine-Inv w))

module _ {F V : Type 0} (fl : Float F) (c : Columns F) (answers : Answers V) (sv : Services F V)
    (stale : ℕ) (up : (v : V) → (answers v).0 ≡ true) where
  -- What the engine holds, the table has.
  Good-OpenLive :
      (e : Engine F (World V))
      → Good fl c answers sv stale up e
      → Inv e
      → OpenLive c e.world.tables.rollouts
  Good-OpenLive e g v id p there = elim (Option-cases (lookup id e.active)) [
    | inl gone ↦ absurd (cc (sym (g.held id) ∙ ap (Option.map plain) gone, there))
    | inr (r, found) ↦
        let (_, l) = lookup-AllLive id e.active r v.live found in
        let same : some (plain r) ≡ some p =
          sym (ap (Option.map plain) found) ∙ g.held id ∙ there in
        let is_p : plain r ≡ p = cc same in
        subst IsLive is_p (record { unfinished = l.unfinished; stage_exists = l.stage_exists })
  ]

  step-Safe :
      (call : Call F) (e : Engine F (World V))
      → Good fl c answers sv stale up e
      → Inv e
      → Inv (step fl (backed c answers sv) stale call e)
  unfolding step
  step-Safe (ticks order) e g v = step-Inv fl (backed c answers sv) stale (ticks order) e tt v
  step-Safe (creates r) e g v = step-Inv fl (backed c answers sv) stale (creates r) e tt v
  step-Safe (pauses id) e g v = step-Inv fl (backed c answers sv) stale (pauses id) e tt v
  step-Safe (resumes id) e g v = step-Inv fl (backed c answers sv) stale (resumes id) e tt v
  step-Safe (aborts id) e g v = step-Inv fl (backed c answers sv) stale (aborts id) e tt v
  step-Safe resumes_all e g v =
      resume_all-Inv fl c answers sv stale e g.distinct g.readable (Good-OpenLive e g v) v

  run-Safe :
      (cs : List (Call F)) (e : Engine F (World V))
      → All (Documents c) cs
      → Good fl c answers sv stale up e
      → Inv e
      → Good fl c answers sv stale up (run fl (backed c answers sv) stale cs e)
        × Inv (run fl (backed c answers sv) stale cs e)
  unfolding run
  run-Safe [] e b g v = (g, v)
  run-Safe (call ∷ cs) e (b, bs) g v =
      run-Safe cs (step fl (backed c answers sv) stale call e) bs
        (step-Good fl c answers sv stale up call e b g) (step-Safe call e g v)

  -- Where the database answers every statement, and the documents of each rollout that is created
  -- read back as they were written: when a control plane comes up on a table whose ids are distinct,
  -- whose rows can be scanned, and whose running and paused rollouts are at existing stages, the
  -- table is such a table again after any calls, further calls of ResumeAll included, so that the
  -- next one can come up on it.
  pub run-OpenLive :
      (cs : List (Call F)) (w : World V)
      → Distinct w.tables.rollouts
      → Readable c w.tables.rollouts
      → OpenLive c w.tables.rollouts
      → All (Documents c) cs
      → let sv' = backed c answers sv in
        let e = run fl sv' stale cs (resume_all fl sv' stale (new_engine fl sv' stale w)).1 in
        Distinct e.world.tables.rollouts
        × Readable c e.world.tables.rollouts
        × OpenLive c e.world.tables.rollouts
  unfolding new_engine
  run-OpenLive cs w d read opened b =
      let sv' = backed c answers sv in
      let e0 = new_engine fl sv' stale w in
      let (_, g0, _) =
        resume_all-Agrees fl c answers sv stale e0 (up w.rest) d read (λ id. inl refl) in
      let v0 =
        resume_all-Inv fl c answers sv stale e0 d read opened
          (new_engine-Inv fl c answers sv stale w) in
      let (g, v) = run-Safe cs (resume_all fl sv' stale e0).1 b g0 v0 in
      (g.distinct, g.readable, Good-OpenLive _ g v)
