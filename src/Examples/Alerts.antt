-- ===== src/Examples/Alerts.antt =====
-- One alert that is opened, acknowledged and resolved, with details that are texts themselves.
use sense_grid.Common.{◌≡◌, refl, false, some, none, List, [], ◌∷◌, codes, Text, Codec}
use sense_grid.Alerts.Machine.{firing}
use sense_grid.Alerts.Store.{Row, open_alert, violates_unique}
use sense_grid.Alerts.History.{
  Call, opens, resolves, acknowledges, Evolves, IsUnique, step, run, step-Evolves,
}
use sense_grid.Alerts.Lifecycle.{run-IsUnique}

abbrev plain : Codec Text
plain = record { marshal = λ t. some t; unmarshal = λ t. some t }

abbrev d : Text
d = codes "d1"

abbrev s : Text
s = codes "temperature"

abbrev k : Text
k = codes "hot"

abbrev opening : Call Text
opening = opens false false (codes "a1") d s k (codes "high") (codes "{}") 5 6

abbrev opened_row : Row
opened_row = record {
  id = codes "a1";
  device_id = d;
  sensor_type = s;
  rule_name = k;
  severity = codes "high";
  state = firing;
  detail = codes "{}";
  fired_at = 5;
  acknowledged_at = none;
  resolved_at = none;
  updated_at = 6;
}

abbrev table : List Row
table = opened_row ∷ []

step-Evolves_example : Evolves table (step plain [] (acknowledges false (codes "a1") 7) table)
step-Evolves_example = step-Evolves plain [] (acknowledges false (codes "a1") 7) table

run-IsUnique_example :
    IsUnique (run plain [] (opening ∷ resolves false d s k 7 8 ∷ opening ∷ []) [])
run-IsUnique_example = run-IsUnique plain [] (opening ∷ resolves false d s k 7 8 ∷ opening ∷ [])

opening_opens : step plain [] opening [] ≡ table
unfolding step open_alert violates_unique
opening_opens = refl
