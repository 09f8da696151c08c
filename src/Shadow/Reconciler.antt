-- ===== src/Shadow/Reconciler.antt =====
-- onMessage of internal/shadow/reconciler.go and PublishDesired of publisher.go. `down` and `now` are the
-- database and the clock that a message meets.
use sense_grid.Common.{ℕ, Bool, false, none, some, List, Text, Codec}
use sense_grid.Shadow.Types.{Desired}
use sense_grid.Shadow.Store.{Bucket, put_reported}
use sense_grid.Telemetry.Topics.{device_id_from_state_topic, config_topic}
use sense_grid.Control.Devices.{Row, update_last_seen}

module _ {F W : Type 0} (b : Bucket F W) where
  unfoldable pub on_message : Bool → ℕ → Text → Text → W × List Row → W × List Row
  unfolding put_reported update_last_seen
  on_message down now topic payload (w, rows) = elim (device_id_from_state_topic topic) [
    | none ↦ (w, rows)
    | some id ↦ elim (b.reported.unmarshal payload) [
      | none ↦ (w, rows)
      | some rep ↦
          let (failed, w1) = put_reported b id rep w in
          elim failed [ some e ↦ (w1, rows) | none ↦ (w1, (update_last_seen down id now rows).1) ]
    ]
  ]

-- PublishDesired: `publish` waits for the broker and says whether it took the retained message.
unfoldable pub publish_desired :
    {F W : Type 0}
    → Codec (Desired F)
    → (Text → Text → W → Bool × W)
    → Text
    → Desired F
    → W
    → Bool × W
unfolding config_topic
publish_desired json publish id d w = elim (json.marshal d) [
  | none ↦ (false, w)
  | some body ↦ publish (config_topic id) body w
]
