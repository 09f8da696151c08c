-- ===== src/Device/Handler.antt =====
-- configHandler, publishReported and publishReportedValue of cmd/fleet/device.go. The broker, the
-- clock, encoding/json and fmt.Errorf are parameters; what Publish answers is not looked at.
use sense_grid.Common.{ℕ, List, [], ◌∷◌, none, some, Text, Codec, ok, err, Float}
use sense_grid.Shadow.Types.{Desired, Reported}
use sense_grid.Ingest.Handler.{milliseconds}
use sense_grid.Telemetry.Topics.{state_topic}
use sense_grid.Device.Config.{
  AppliedConfig, Invalid, apply_partial, to_reported, to_rejected_reported,
}

pub record Client (F W : Type 0) : Type 0 where
  pub now : W → ℕ × W
  pub publish : Text → Text → W → W
  pub desired : Codec (Desired F)
  pub reported : Codec (Reported F)
  -- err.Error().
  pub describe : Invalid F → Text

module _ {F W : Type 0} (fl : Float F) (cl : Client F W) where
  abbrev pub at_time : Reported F → ℕ → Reported F
  at_time rep t = record rep { reported_at_ms = milliseconds t }

  unfoldable pub publish_reported_value : Text → Reported F → W → W
  publish_reported_value id rep w =
      let (t, w1) = cl.now w in
      elim (cl.reported.marshal (at_time rep t)) [
        | none ↦ w1
        | some body ↦ cl.publish (state_topic id) body w1
      ]

  unfoldable pub publish_reported : Text → AppliedConfig F → W → W
  unfolding publish_reported_value to_reported
  publish_reported id cfg w = publish_reported_value id (to_reported fl cfg) w

  unfoldable pub config_handler :
      List Text → Text → Text → AppliedConfig F → W → AppliedConfig F × W
  unfolding publish_reported publish_reported_value apply_partial to_rejected_reported
  config_handler known id payload current w = elim (cl.desired.unmarshal payload) [
    | none ↦ (current, w)
    | some d ↦ elim (apply_partial fl known current d) [
      | err e ↦ (
        current,
        publish_reported_value id (to_rejected_reported fl current d.revision (cl.describe e)) w,
      )
      | ok next ↦ (next, publish_reported id next w)
    ]
  ]

  -- The configuration after any messages of the config topic.
  abbrev pub run_config : List Text → Text → List Text → AppliedConfig F → W → AppliedConfig F × W
  run_config known id [] current w = (current, w)
  run_config known id (payload ∷ payloads) current w =
      let (next, w1) = config_handler known id payload current w in
      run_config known id payloads next w1
