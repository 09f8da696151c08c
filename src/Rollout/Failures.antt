-- ===== src/Rollout/Failures.antt =====
-- A Pause that UpdateState refuses.
use sense_grid.Common.{
  ℕ, ◌≡◌, refl, true, false, some, List, text_Eq, ==_refl, Text, lookup, lookup-insert, err, Float,
}
use sense_grid.Rollout.Types.{Rollout, paused, is_running}
use sense_grid.Rollout.Services.{Services}
use sense_grid.Rollout.Engine.{Engine, tick_all}
use sense_grid.Rollout.Commands.{store_failed, set_state, pause}
use sense_grid.Rollout.Lifecycle.{Inv, lookup-AllLive}
use sense_grid.Rollout.Invariant.{pause-Inv}
use sense_grid.Rollout.Ticks.{tick_all-paused}

module _ {F W : Type 0} (fl : Float F) (sv : Services F W) (stale_after : ℕ) where
  failed_pause :
      (e : Engine F W) (id : Text) (r : Rollout F)
      → id ≡ r.id
      → lookup id e.active ≡ some r
      → is_running r.state ≡ true
      → (sv.update_state r.id paused e.world).0 ≡ false
      → ((pause fl sv stale_after e id).0 ≡ err store_failed)
        × (lookup id (pause fl sv stale_after e id).1.active ≡ some (record r { state = paused }))
  unfolding pause set_state
  failed_pause e id r own found up lost =
      rw (found, pause)
        (rw up (
          rw lost (
            refl,
            rw (lookup-insert r.id id (record r { state = paused }) e.active)
                (rw own (rw (==_refl r.id) refl)),
          )))

  -- Where a rollout runs and UpdateState refuses the state Paused: Pause answers the error, and
  -- the engine holds the rollout as paused all the same, through a pass of the ticker in any order.
  pub pause_failed-halts :
      (e : Engine F W) (id : Text) (r : Rollout F) (order : List Text)
      → Inv e
      → lookup id e.active ≡ some r
      → is_running r.state ≡ true
      → (sv.update_state r.id paused e.world).0 ≡ false
      → ((pause fl sv stale_after e id).0 ≡ err store_failed)
        × (lookup id (tick_all fl sv stale_after order (pause fl sv stale_after e id).1).active
            ≡ some (record r { state = paused }))
  pause_failed-halts e id r order v found up lost =
      let own = (lookup-AllLive id e.active r v.live found).0 in
      let (answer, held) = failed_pause e id r own found up lost in
      (
        answer,
        tick_all-paused fl sv stale_after order (pause fl sv stale_after e id).1 id
            (record r { state = paused }) (pause-Inv fl sv stale_after e id v) held refl,
      )
