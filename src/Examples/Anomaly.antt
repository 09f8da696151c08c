-- ===== src/Examples/Anomaly.antt =====
-- The evaluator: a rule that wants three violations in a row, while another key is quiet.
use sense_grid.Common.{◌≡◌, refl, true, false, List, [], ◌∷◌, codes}
use sense_grid.Anomaly.Evaluator.{Key, fired, cleared, update, observe, new_evaluator}
use sense_grid.Anomaly.Streaks.{Call, updates, run, history, update-fired_iff, update-cleared_iff}
use sense_grid.Anomaly.Alternation.{Alternates, log, log-Alternates}

abbrev hot : Key
hot = record { device_id = codes "d1"; sensor_type = codes "temperature"; rule_name = codes "hot" }

abbrev quiet : Key
quiet = record hot { device_id = codes "d2" }

abbrev two_violations : List Call
two_violations =
    updates hot true 3 ∷ updates quiet false 3 ∷ updates hot true 3 ∷ updates hot false 3 ∷ []

abbrev opened_once : List Call
opened_once = updates hot true 3 ∷ two_violations

update-fired_iff_example : (update (run two_violations) hot true 3).1 ≡ fired
unfolding run update history observe new_evaluator
update-fired_iff_example =
    (update-fired_iff two_violations hot true 3).1 (refl, (refl, (refl, (refl, tt))))

update-cleared_iff_example : (update (run opened_once) hot false 1).1 ≡ cleared
unfolding run update history observe new_evaluator
update-cleared_iff_example = (update-cleared_iff opened_once hot false 1).1 (refl, (refl, tt))

log-Alternates_example : Alternates (log hot (updates hot false 1 ∷ opened_once))
log-Alternates_example = (log-Alternates (updates hot false 1 ∷ opened_once) hot).0

two_edges : log hot (updates hot false 1 ∷ opened_once) ≡ cleared ∷ fired ∷ []
unfolding log run update observe new_evaluator
two_edges = refl
