-- ===== src/Device/Messages.antt =====
-- The configuration of a device over the messages of its config topic.
use sense_grid.Common.{
  ◌≡◌, refl, inl, inr, true, List, [], ◌∷◌, Text, ℤ, pos, ltb_ℤ, Float, Option-cases, Result-cases,
}
use sense_grid.Device.Config.{AppliedConfig, apply_partial, default_applied_config}
use sense_grid.Device.Handler.{Client, config_handler, run_config}
use sense_grid.Device.Validity.{IsValid, apply_partial-IsValid, of_milliseconds-positive}

module _ {F W : Type 0} (fl : Float F) (cl : Client F W) where
  config_handler-IsValid :
      (known : List Text) (id payload : Text) (c : AppliedConfig F) (w : W)
      → IsValid known c
      → IsValid known (config_handler fl cl known id payload c w).0
  unfolding config_handler
  config_handler-IsValid known id payload c w v =
      elim (Option-cases (cl.desired.unmarshal payload)) [
        | inl bad ↦ rw (bad, config_handler) v
        | inr (d, read) ↦
            rw (read, config_handler)
              (elim (Result-cases (apply_partial fl known c d)) [
                | inl (e, refused) ↦ rw refused v
                | inr (next, taken_over) ↦
                    rw taken_over (apply_partial-IsValid fl known c next d taken_over v)
              ])
      ]

  run_config-IsValid :
      (known : List Text) (id : Text) (payloads : List Text) (c : AppliedConfig F) (w : W)
      → IsValid known c
      → IsValid known (run_config fl cl known id payloads c w).0
  run_config-IsValid known id [] c w v = v
  run_config-IsValid known id (p ∷ ps) c w v =
      run_config-IsValid known id ps (config_handler fl cl known id p c w).0
        (config_handler fl cl known id p c w).1 (config_handler-IsValid known id p c w v)

  -- A device that starts with a sample interval of at least a millisecond has, after any messages of
  -- its config topic, readable or not: a positive interval, whose time.Duration is positive too unless
  -- the interval is above 9223372036854 milliseconds; known sensors only; a mode that is continuous or
  -- batched; and for batched a bound.
  pub run_config-default-IsValid :
      (known : List Text) (id : Text) (payloads : List Text) (interval_ms : ℤ) (w : W)
      → ltb_ℤ (pos 0) interval_ms ≡ true
      → IsValid known (run_config fl cl known id payloads (default_applied_config interval_ms) w).0
  unfolding default_applied_config
  run_config-default-IsValid known id payloads interval_ms w h =
      run_config-IsValid known id payloads (default_applied_config interval_ms) w (record {
        interval = h;
        period = of_milliseconds-positive interval_ms h;
        sensors = tt;
        batch = refl;
        flush = refl;
        mode = inl refl;
        bounded = refl;
      })
