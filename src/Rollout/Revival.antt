-- ===== src/Rollout/Revival.antt =====
-- A completion that the database does not take, across a restart of the control plane.
use sense_grid.Common.{
  ℕ, ◌≡◌, refl, sym, ap, ◌∙◌, inl, Bool, true, false, none, some, List, text_Eq, lookup,
  lookup-delete, ==_refl, Float,
}
use mathlib.Core.Option
use sense_grid.Rollout.Types.{Rollout, State, completed, completed_event, no_detail}
use sense_grid.Rollout.Services.{Services}
use sense_grid.Rollout.Engine.{Engine, new_engine, complete_locked, announce}
use sense_grid.Rollout.Commands.{resume_all}
use sense_grid.Rollout.Tables.{Tables, Columns}
use sense_grid.Rollout.Store
use sense_grid.Rollout.Backed.{World, Answers, backed}
use sense_grid.Rollout.Frame.{publish-tables}
use sense_grid.Rollout.Rows.{plain, live}
use sense_grid.Rollout.Agreement.{Agrees, Agrees-id}
use sense_grid.Rollout.Resuming.{resume_all-Agrees}

update_state-unanswered :
    {F : Type 0} (c : Columns F) (n : ℕ) (id : List ℕ) (s : State) (t : Tables)
    → (Store.update_state c false n id s t).1 ≡ t
unfolding Store.update_state
update_state-unanswered c n id s t = refl

module _ {F V : Type 0} (fl : Float F) (c : Columns F) (answers : Answers V) (sv : Services F V)
    (stale : ℕ) where
  -- Where the map and the table agree and a rollout of the map completes while the database does not
  -- answer: the engine no longer holds it, and a new control plane, whose query is answered, holds
  -- it again as it was before it completed.
  pub complete_locked-revived :
      (e : Engine F (World V)) (r : Rollout F)
      → Agrees c e.active e.world.tables.rollouts
      → lookup r.id e.active ≡ some r
      → (answers e.world.rest).0 ≡ false
      → (answers (complete_locked fl (backed c answers sv) stale e r).world.rest).0 ≡ true
      → let sv' = backed c answers sv in
        let e1 = complete_locked fl sv' stale e r in
        let (done, e2) = resume_all fl sv' stale (new_engine fl sv' stale e1.world) in
        (lookup r.id e1.active ≡ none)
        × (done ≡ true)
        × (Option.map plain (lookup r.id e2.active) ≡ some (plain r))
  unfolding complete_locked announce new_engine
  complete_locked-revived e r a found down working =
      let sv' = backed c answers sv in
      let e1 = complete_locked fl sv' stale e r in
      let w = (sv'.update_state r.id completed e.world).1 in
      let n = (answers e.world.rest).1 in
      let untouched : e1.world.tables ≡ e.world.tables =
        publish-tables c answers sv w (record r { state = completed }) completed_event no_detail
        ∙ ap (λ (b : Bool). (Store.update_state c b n r.id completed e.world.tables).1) down
        ∙ update_state-unanswered c n r.id completed e.world.tables in
      let rows = ap (λ (t : Tables). t.rollouts) (sym untouched) in
      let (done, a', same) =
        resume_all-Agrees fl c answers sv stale (new_engine fl sv' stale e1.world) working
          (rw (← rows) a.distinct) (rw (← rows) a.readable) (λ id. inl refl) in
      (
        lookup-delete r.id r.id e.active ∙ rw (==_refl r.id) refl,
        done,
        a'.held r.id
            ∙ ap (λ (t : Tables). live c r.id t.rollouts) (same ∙ untouched)
            ∙ (Agrees-id c e.active e.world.tables.rollouts r.id r a found).0,
      )
