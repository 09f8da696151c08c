-- ===== src/Rollout/Resuming.antt =====
-- ResumeAll over the tables of the store: what a new engine takes from them.
use sense_grid.Common.{
  ℕ, ◌≡◌, refl, sym, ap, ◌∙◌, ◌⊎◌, inl, inr, Bool, true, none, List, [], ◌∷◌, text_Eq, text_eq_iff,
  Text, lookup, Float, Option-cases,
}
use mathlib.Core.Option
use sense_grid.Rollout.Types.{Rollout}
use sense_grid.Rollout.Services.{Services}
use sense_grid.Rollout.Engine.{Engine, with_world, put}
use sense_grid.Rollout.Commands.{resume_all, add_all}
use sense_grid.Rollout.Tables.{Tables, Columns}
use sense_grid.Rollout.Store
use sense_grid.Rollout.Store.{row_of}
use sense_grid.Rollout.Backed.{World, Answers, backed, value_of}
use sense_grid.Rollout.Rows.{Distinct, plain, live}
use sense_grid.Rollout.Listing.{Readable, list_non_terminal_lem, add_all-lookup}
use sense_grid.Rollout.Agreement.{Agrees, Agrees-eq}

module _ {F V : Type 0} (fl : Float F) (c : Columns F) (answers : Answers V) (sv : Services F V)
    (stale : ℕ) where
  add_all-world :
      (rs : List (Rollout F)) (e : Engine F (World V))
      → (add_all fl (backed c answers sv) stale rs e).world ≡ e.world
  unfolding add_all
  add_all-world [] e = refl
  add_all-world (r ∷ rs) e = add_all-world rs (put e r)

  -- From a map that is empty, or agrees already.
  pub resume_all-Agrees :
      (e : Engine F (World V))
      → (answers e.world.rest).0 ≡ true
      → Distinct e.world.tables.rollouts
      → Readable c e.world.tables.rollouts
      → ((id : Text)
          → (lookup id e.active ≡ none)
            ⊎ (Option.map plain (lookup id e.active) ≡ live c id e.world.tables.rollouts))
      → let (done, e') = resume_all fl (backed c answers sv) stale e in
        (done ≡ true)
        × Agrees c e'.active e'.world.tables.rollouts
        × (e'.world.tables ≡ e.world.tables)
  unfolding resume_all
  resume_all-Agrees e working d read before =
      let rows = e.world.tables.rollouts in
      let (rs, answered, from, all) = list_non_terminal_lem c e.world.tables read d in
      let e1 = with_world e ((backed c answers sv).list_non_terminal e.world).1 in
      let same = ap (λ (w : World V). w.tables) (add_all-world rs e1) in
      let held = λ (id : Text).
        elim (add_all-lookup fl (backed c answers sv) stale rs e1 id)
          as (λ _.
            Option.map plain (lookup id (add_all fl (backed c answers sv) stale rs e1).active)
            ≡ live c id rows) [
              | inr (r, m, r_id, at) ↦
                  ap (Option.map plain) at
                  ∙ sym (ap (λ (k : Text). live c k rows) (sym r_id) ∙ from r m)
              | inl (kept, others) ↦ elim (before id) [
                | inr agrees ↦ ap (Option.map plain) kept ∙ agrees
                | inl gone ↦ elim (Option-cases (live c id rows)) [
                  | inl over ↦ ap (Option.map plain) (kept ∙ gone) ∙ sym over
                  | inr (p, there) ↦
                      let (r, m, r_id) = all id p there in
                      absurd (cc (others r m, (text_eq_iff r.id id).1 r_id))
                ]
              ]
            ] in
      let listed =
        ap (λ (b : Bool). value_of (Store.list_non_terminal c b e.world.tables)) working
        ∙ ap value_of answered in
      rw (listed, resume_all)
        (
          refl,
          Agrees-eq c _ _ _ _ (record { held = held; distinct = d; readable = read }) refl
              (ap (λ (t : Tables). t.rollouts) same),
          same,
        )
