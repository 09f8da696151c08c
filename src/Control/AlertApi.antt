-- ===== src/Control/AlertApi.antt =====
-- cmd/control/alerts_handlers.go over the table of alerts. `publish` is the publisher of alert events,
-- whose failure is logged only; `down` and `db_now` are the database of the statement.
use sense_grid.Common.{
  ℕ, Bool, Option, none, some, List, [], ◌∷◌, if◌then◌else◌, ◌==◌, text_Eq, Text, codes, Result, ok,
  err, Codec, ℤ, pos, negsuc,
}
use sense_grid.Alerts.Machine.{State, firing, acknowledged, resolved}
use sense_grid.Alerts.Store.{Alert, Row, Error, acknowledge_alert, resolve_by_id}
use sense_grid.Alerts.Queries.{list}
use sense_grid.Control.Http.{Reply, answered, refused, internal_error}

-- alerts.State of the query: no narrowing where it is empty, and no row has another text.
pub data StateFilter : Type 0 where
  any_state no_state : StateFilter
  only : State → StateFilter

unfoldable pub state_filter : Text → StateFilter
state_filter [] = any_state
state_filter (c ∷ cs) =
    if c ∷ cs == codes "firing"
    then only firing
    else if c ∷ cs == codes "acknowledged"
    then only acknowledged
    else if c ∷ cs == codes "resolved"
    then only resolved
    else no_state

-- The limit of strconv.Atoi, 0 where it fails.
abbrev pub limit_of : Option ℤ → ℕ
limit_of none = 0
limit_of (some (pos n)) = n
limit_of (some (negsuc n)) = 0

module _ {D W : Type 0} (json : Codec D) (no_detail : D) (publish : Alert D → W → W)
    (message : Error → Text) where
  narrowed : Bool → StateFilter → Text → ℕ → List Row → Result Error (List (Alert D))
  narrowed down any_state device limit rows =
      list json no_detail down (record { state = none; device_id = device; limit = limit }) rows
  narrowed down (only s) device limit rows =
      list json no_detail down (record { state = some s; device_id = device; limit = limit }) rows
  narrowed down no_state device limit rows =
      list json no_detail down (record { state = none; device_id = device; limit = limit }) []

  -- GET /v1/alerts.
  unfoldable pub get_alerts : Bool → Text → Text → Option ℤ → List Row → Reply (List (Alert D))
  unfolding narrowed state_filter
  get_alerts down state device limit rows =
      elim (narrowed down (state_filter state) device (limit_of limit) rows) [
        | err e ↦ internal_error
        | ok found ↦ answered found
      ]

  -- The end of both handlers.
  unfoldable pub publish_changed :
      Result Error (Alert D) → List Row → W → Reply (Alert D) × List Row × W
  publish_changed (err e) rows w = (refused 400 (message e), rows, w)
  publish_changed (ok a) rows w = (answered a, rows, publish a w)

  -- POST /v1/alerts/{id}/ack.
  unfoldable pub post_ack : Bool → Text → ℕ → List Row → W → Reply (Alert D) × List Row × W
  unfolding publish_changed
  post_ack down id db_now rows w =
      let (changed, rows') = acknowledge_alert json no_detail down id db_now rows in
      publish_changed changed rows' w

  -- POST /v1/alerts/{id}/resolve.
  unfoldable pub post_resolve : Bool → Text → ℕ → ℕ → List Row → W → Reply (Alert D) × List Row × W
  unfolding publish_changed
  post_resolve down id now db_now rows w =
      let (changed, rows') = resolve_by_id json no_detail down id now db_now rows in
      publish_changed changed rows' w
