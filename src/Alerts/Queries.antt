-- ===== src/Alerts/Queries.antt =====
-- FiringCountForDevices and List of internal/alerts/store.go, which only read the table.
use sense_grid.Common.{
  ℕ, Bool, true, false, ◌&&◌, Option, none, some, List, [], ◌∷◌, leb, if◌then◌else◌, ◌==◌, text_Eq,
  Text, length, keep, take, contains, Result, ok, err, Codec, sort_desc,
}
use sense_grid.Alerts.Machine.{State, firing, acknowledged, resolved}
use sense_grid.Alerts.Store.{Alert, Row, Error, query_failed, is_firing, scan_alert}

abbrev pub distinct : List Text → List Text
distinct [] = []
distinct (x ∷ xs) = let rest = distinct xs in if contains x rest then rest else x ∷ rest

-- `device_id = ANY($1) AND state = 'firing' AND fired_at >= $2`.
abbrev pub firing_since : List Text → ℕ → Row → Bool
firing_since ids since r = contains r.device_id ids && (is_firing r.state && leb since r.fired_at)

abbrev device_ids : List Row → List Text
device_ids [] = []
device_ids (r ∷ rs) = r.device_id ∷ device_ids rs

unfoldable pub firing_count_for_devices : Bool → List Text → ℕ → List Row → Result Error ℕ
firing_count_for_devices down [] since rows = ok 0
firing_count_for_devices down (i ∷ ids) since rows =
    if down
    then err query_failed
    else ok (length (distinct (device_ids (keep (firing_since (i ∷ ids) since) rows))))

-- An absent state or an empty device_id does not narrow; a limit of 0 stands for any below 1.
pub record Filter : Type 0 where
  pub state : Option State
  pub device_id : Text
  pub limit : ℕ

abbrev pub default_list_limit : ℕ
default_list_limit = 200

abbrev pub state_eq : State → State → Bool
state_eq firing firing = true
state_eq acknowledged acknowledged = true
state_eq resolved resolved = true
state_eq _ _ = false

abbrev pub passes_state : Option State → Row → Bool
passes_state none r = true
passes_state (some s) r = state_eq r.state s

abbrev pub passes_device : Text → Row → Bool
passes_device [] r = true
passes_device (c ∷ cs) r = r.device_id == c ∷ cs

module _ {ℓ} {D : Type ℓ} (json : Codec D) (no_detail : D) where
  scan_rows : List Row → Result Error (List (Alert D))
  scan_rows [] = ok []
  scan_rows (r ∷ rs) =
      let rest = scan_rows rs in
      elim (scan_alert json no_detail r) [
        | err e ↦ err e
        | ok a ↦ elim rest [ err e ↦ err e | ok as' ↦ ok (a ∷ as') ]
      ]

  unfoldable pub list : Bool → Filter → List Row → Result Error (List (Alert D))
  unfolding scan_rows
  list down filter rows =
      let limit = if leb filter.limit 0 then default_list_limit else filter.limit in
      let wanted =
        keep (λ r. passes_state filter.state r && passes_device filter.device_id r) rows in
      if down
      then err query_failed
      else scan_rows (take limit (sort_desc (λ (r : Row). r.fired_at) wanted))
