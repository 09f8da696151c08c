-- ===== src/Alerts/Store.antt =====
-- internal/alerts/store.go over the table of deploy/migrations/0005_alerts.sql. A query that the
-- database does not answer is the flag `down` of the call, and then changes nothing; `db_now` is
-- now() of the query. A foreign key that refuses a row is an unanswered query too.
use sense_grid.Common.{
  ℕ, Bool, true, false, not, ◌&&◌, ◌||◌, Option, none, some, List, [], ◌∷◌, ◌++◌, if◌then◌else◌,
  ◌==◌, text_Eq, Text, Result, ok, err, Codec,
}
use sense_grid.Alerts.Machine.{State, firing, acknowledged, resolved}

-- The columns that scanAlert reads, with `detail` of a type D in Go and as text in the table.
pub record Alert {ℓ} (D : Type ℓ) : Type ℓ where
  pub id : Text
  pub device_id : Text
  pub sensor_type : Text
  pub rule_name : Text
  pub severity : Text
  pub state : State
  pub detail : D
  pub fired_at : ℕ
  pub acknowledged_at : Option ℕ
  pub resolved_at : Option ℕ
  pub updated_at : ℕ

abbrev pub Row : Type 0
Row = Alert Text

pub data Error : Type 0 where
  marshaling unmarshaling query_failed no_rows not_open not_firing : Error

abbrev pub is_resolved : State → Bool
is_resolved resolved = true
is_resolved _ = false

abbrev pub is_firing : State → Bool
is_firing firing = true
is_firing _ = false

-- `device_id = $1 AND sensor_type = $2 AND rule_name = $3 AND state <> 'resolved'`.
unfoldable pub open_for : Text → Text → Text → Row → Bool
open_for device sensor rule r =
    r.device_id == device
    && (r.sensor_type == sensor && (r.rule_name == rule && not (is_resolved r.state)))

-- `id = $1 AND state <> 'resolved'` and `id = $1 AND state = 'firing'`.
abbrev pub open_by_id : Text → Row → Bool
open_by_id id r = r.id == id && not (is_resolved r.state)

abbrev pub firing_by_id : Text → Row → Bool
firing_by_id id r = r.id == id && is_firing r.state

unfoldable pub first : (Row → Bool) → List Row → Option Row
first p [] = none
first p (r ∷ rs) = if p r then some r else first p rs

-- UPDATE ... SET f WHERE p.
unfoldable pub update_where : (Row → Bool) → (Row → Row) → List Row → List Row
update_where p f [] = []
update_where p f (r ∷ rs) = (if p r then f r else r) ∷ update_where p f rs

-- A primary key on `id`, and the partial unique index alerts_open_idx.
unfoldable pub violates_unique : Row → List Row → Bool
violates_unique new [] = false
violates_unique new (r ∷ rs) =
    r.id == new.id
    || (not (is_resolved new.state) && open_for new.device_id new.sensor_type new.rule_name r
        || violates_unique new rs)

abbrev pub as_resolved : ℕ → ℕ → Row → Row
as_resolved resolved_at db_now r = record r {
  state = resolved;
  resolved_at = some resolved_at;
  updated_at = db_now;
}

abbrev pub as_acknowledged : ℕ → Row → Row
as_acknowledged db_now r = record r {
  state = acknowledged;
  acknowledged_at = some db_now;
  updated_at = db_now;
}

module _ {ℓ} {D : Type ℓ} (json : Codec D) (no_detail : D) where
  scan_detail : Text → Result Error D
  scan_detail [] = ok no_detail
  scan_detail (c ∷ cs) = elim (json.unmarshal (c ∷ cs)) [ none ↦ err unmarshaling | some d ↦ ok d ]

  unfoldable pub scan_alert : Row → Result Error (Alert D)
  unfolding scan_detail
  scan_alert r = elim (scan_detail r.detail) [
    | err e ↦ err e
    | ok d ↦ ok (record {
      id = r.id;
      device_id = r.device_id;
      sensor_type = r.sensor_type;
      rule_name = r.rule_name;
      severity = r.severity;
      state = r.state;
      detail = d;
      fired_at = r.fired_at;
      acknowledged_at = r.acknowledged_at;
      resolved_at = r.resolved_at;
      updated_at = r.updated_at;
    })
  ]

  -- QueryRow and scan: the error is ErrNoRows where no row came back.
  unfoldable pub scan_row : Option Row → Result Error (Alert D)
  unfolding scan_alert
  scan_row none = err no_rows
  scan_row (some r) = scan_alert r

  unfoldable pub get_open : Bool → Text → Text → Text → List Row → Result Error (Alert D)
  unfolding scan_row
  get_open down device sensor rule rows =
      if down then err query_failed else scan_row (first (open_for device sensor rule) rows)

  -- The row that INSERT makes.
  unfoldable pub firing_row : Text → Text → Text → Text → Text → Text → ℕ → ℕ → Row
  firing_row id device sensor rule severity detail fired_at db_now = record {
    id = id;
    device_id = device;
    sensor_type = sensor;
    rule_name = rule;
    severity = severity;
    state = firing;
    detail = detail;
    fired_at = fired_at;
    acknowledged_at = none;
    resolved_at = none;
    updated_at = db_now;
  }

  -- The existing alert with opened=false, where the unique index refused the new row.
  reopened : Result Error (Alert D) → Result Error (Alert D × Bool)
  reopened (ok a) = ok (a, false)
  reopened (err e) = err e

  newly_opened : Result Error (Alert D) → Result Error (Alert D × Bool)
  newly_opened (ok a) = ok (a, true)
  newly_opened (err e) = err e

  -- `down` is for the INSERT, `down_again` for the query of getOpen.
  unfoldable pub open_alert :
      Bool
      → Bool
      → Text
      → Text
      → Text
      → Text
      → Text
      → D
      → ℕ
      → ℕ
      → List Row
      → Result Error (Alert D × Bool) × List Row
  unfolding reopened newly_opened firing_row
  open_alert down down_again id device sensor rule severity detail fired_at db_now rows =
      elim (json.marshal detail) [
        | none ↦ (err marshaling, rows)
        | some text ↦
            let new = firing_row id device sensor rule severity text fired_at db_now in
            if down
            then (err query_failed, rows)
            else if violates_unique new rows
            then (reopened (get_open down_again device sensor rule rows), rows)
            else (newly_opened (scan_alert new), rows ++ new ∷ [])
      ]

  -- UPDATE ... RETURNING, of which QueryRow reads the first row.
  returning : (Row → Bool) → (Row → Row) → List Row → Result Error (Alert D)
  unfolding scan_row
  returning p f rows = elim (first p rows) [ none ↦ scan_row none | some r ↦ scan_row (some (f r)) ]

  none_open : Result Error (Alert D) → Result Error (Option (Alert D))
  none_open (ok a) = ok (some a)
  none_open (err no_rows) = ok none
  none_open (err e) = err e

  unfoldable pub resolve :
      Bool → Text → Text → Text → ℕ → ℕ → List Row → Result Error (Option (Alert D)) × List Row
  unfolding returning none_open
  resolve down device sensor rule resolved_at db_now rows =
      let p = open_for device sensor rule in
      if down then (err query_failed, rows) else (
        none_open (returning p (as_resolved resolved_at db_now) rows),
        update_where p (as_resolved resolved_at db_now) rows,
      )

  instead_of_no_rows : Error → Result Error (Alert D) → Result Error (Alert D)
  instead_of_no_rows e (err no_rows) = err e
  instead_of_no_rows e r = r

  unfoldable pub resolve_by_id : Bool → Text → ℕ → ℕ → List Row → Result Error (Alert D) × List Row
  unfolding returning instead_of_no_rows
  resolve_by_id down id resolved_at db_now rows =
      let p = open_by_id id in
      if down then (err query_failed, rows) else (
        instead_of_no_rows not_open (returning p (as_resolved resolved_at db_now) rows),
        update_where p (as_resolved resolved_at db_now) rows,
      )

  unfoldable pub acknowledge_alert : Bool → Text → ℕ → List Row → Result Error (Alert D) × List Row
  unfolding returning instead_of_no_rows
  acknowledge_alert down id db_now rows =
      let p = firing_by_id id in
      if down then (err query_failed, rows) else (
        instead_of_no_rows not_firing (returning p (as_acknowledged db_now) rows),
        update_where p (as_acknowledged db_now) rows,
      )
