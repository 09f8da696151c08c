-- ===== src/Telemetry/Topics.antt =====
-- The topics and subjects of internal/telemetry/schema.go, and deviceIDFromTopic of
-- cmd/ingest/handler.go.
use sense_grid.Common.{
  ℕ, ◌≡◌, refl, ◌↔◌, ◌&&◌, Option, none, some, List, [], ◌∷◌, ◌++◌, arith, if◌then◌else◌, ◌==◌,
  text_Eq, text_eq_iff, Text, codes, nat_Eq,
}
use sense_grid.Telemetry.Split.{split, join, IsPart, split-join_iff}

-- '/'.
abbrev pub slash : ℕ
slash = 47

unfoldable pub telemetry_topic : Text → Text
telemetry_topic id = codes "sensegrid/v1/" ++ id ++ codes "/telemetry"

unfoldable pub config_topic : Text → Text
config_topic id = codes "sensegrid/v1/" ++ id ++ codes "/config"

unfoldable pub state_topic : Text → Text
state_topic id = codes "sensegrid/v1/" ++ id ++ codes "/state"

unfoldable pub jetstream_subject : Text → Text
jetstream_subject id = codes "telemetry." ++ id

unfoldable pub metrics_subject : Text → Text
metrics_subject id = codes "metrics." ++ id

unfoldable pub alerts_subject : Text → Text
alerts_subject id = codes "alerts." ++ id

unfoldable pub rollout_events_subject : Text → Text
rollout_events_subject id = codes "rollout." ++ id ++ codes ".events"

abbrev pub dlq_subject : Text
dlq_subject = codes "dlq.telemetry"

-- The test of the four parts and the part that it gives.
abbrev pub id_of_parts : Text → List Text → Option Text
id_of_parts kind [] = none
id_of_parts kind (a ∷ []) = none
id_of_parts kind (a ∷ b ∷ []) = none
id_of_parts kind (a ∷ b ∷ c ∷ []) = none
id_of_parts kind (a ∷ b ∷ c ∷ d ∷ []) =
    if a == codes "sensegrid" && (b == codes "v1" && d == kind) then some c else none
id_of_parts kind (a ∷ b ∷ c ∷ d ∷ e ∷ ps) = none

unfoldable pub device_id_from_state_topic : Text → Option Text
device_id_from_state_topic topic = id_of_parts (codes "state") (split slash topic)

unfoldable pub device_id_from_topic : Text → Option Text
device_id_from_topic topic = id_of_parts (codes "telemetry") (split slash topic)

id_of_parts-some :
    (kind : Text) (ps : List Text) (id : Text)
    → (id_of_parts kind ps ≡ some id) ↔ (ps ≡ codes "sensegrid" ∷ codes "v1" ∷ id ∷ kind ∷ [])
id_of_parts-some kind [] id = ground arith
id_of_parts-some kind (a ∷ []) id = ground arith
id_of_parts-some kind (a ∷ b ∷ []) id = ground arith
id_of_parts-some kind (a ∷ b ∷ c ∷ []) id = ground arith
id_of_parts-some kind (a ∷ b ∷ c ∷ d ∷ []) id =
    ground
      (arith, text_eq_iff a (codes "sensegrid"), text_eq_iff b (codes "v1"), text_eq_iff d kind)
id_of_parts-some kind (a ∷ b ∷ c ∷ d ∷ e ∷ ps) id = ground arith

-- deviceIDFromTopic and DeviceIDFromStateTopic find a device id in a topic exactly when the topic
-- is the telemetry or the state topic of that id and the id has no slash.
pub device_id_from_topic_iff :
    (topic id : Text)
    → ((device_id_from_topic topic ≡ some id) ↔ ((topic ≡ telemetry_topic id) × IsPart slash id))
      × ((device_id_from_state_topic topic ≡ some id)
          ↔ ((topic ≡ state_topic id) × IsPart slash id))
unfolding device_id_from_topic device_id_from_state_topic telemetry_topic state_topic join
device_id_from_topic_iff topic id =
    (from_parts (codes "telemetry") refl, from_parts (codes "state") refl)
  where
    from_parts :
        (kind : Text)
        → IsPart slash kind
        → (id_of_parts kind (split slash topic) ≡ some id)
          ↔ ((topic ≡ codes "sensegrid/v1/" ++ id ++ slash ∷ kind) × IsPart slash id)
    from_parts kind h =
        let (there, back) = id_of_parts-some kind (split slash topic) id in
        let (a, b) = split-join_iff slash topic (codes "sensegrid") (codes "v1" ∷ id ∷ kind ∷ []) in
        (
          λ e. let (t, (_, (_, (p, _)))) = a (there e) in (t, p),
          λ (t, p). back (b (t, (refl, (refl, (p, (h, tt)))))),
        )
