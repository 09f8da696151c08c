-- ===== src/Alerts/Lifecycle.antt =====
-- Open, Resolve and Acknowledge against one another, over any table of alerts.
use sense_grid.Common.{
  ℕ, ◌≡◌, refl, true, false, none, some, List, [], ◌∷◌, arith, Text, text_eq_iff, Codec, ok, err,
}
use sense_grid.Alerts.Store.{
  Alert, Row, no_rows, open_for, first, update_where, violates_unique, as_resolved, firing_row,
  get_open, open_alert, resolve, scan_alert, scan_row,
}
use sense_grid.Alerts.History.{Call, IsUnique, run, step, step-IsUnique}

first-resolved :
    (d s k : Text) (at_time db_now : ℕ) (rows : List Row)
    → first (open_for d s k) (update_where (open_for d s k) (as_resolved at_time db_now) rows)
      ≡ none
unfolding first update_where open_for
first-resolved d s k at_time db_now [] = refl
first-resolved d s k at_time db_now (r ∷ rs) =
    ground (arith, first-resolved d s k at_time db_now rs)

first-violates :
    (d s k : Text) (new : Row) (rows : List Row) (r : Row)
    → open_for d s k new ≡ true
    → first (open_for d s k) rows ≡ some r
    → violates_unique new rows ≡ true
unfolding first violates_unique open_for
first-violates d s k new [] r o e = cc
first-violates d s k new (x ∷ xs) r o e = ground (
  arith,
  text_eq_iff new.device_id d,
  text_eq_iff new.sensor_type s,
  text_eq_iff new.rule_name k,
  first-violates d s k new xs r o,
)

module _ {ℓ} {D : Type ℓ} (json : Codec D) (no_detail : D) where
  run_from-IsUnique :
      (cs : List (Call D)) (rows : List Row) → IsUnique rows → IsUnique (run json no_detail cs rows)
  unfolding run
  run_from-IsUnique [] rows u = u
  run_from-IsUnique (c ∷ cs) rows u =
      run_from-IsUnique cs (step json no_detail c rows) (step-IsUnique json no_detail c rows u)

  -- Whatever the calls since the table was empty, ids are distinct and no device, sensor and rule
  -- has two open alerts.
  pub run-IsUnique : (cs : List (Call D)) → IsUnique (run json no_detail cs [])
  run-IsUnique cs =
      run_from-IsUnique cs [] (record { by_id = λ id. omega arith; by_key = λ d s k. omega arith })

  -- After a Resolve that the database answers, its key has no open alert: getOpen finds no row.
  pub resolve_closes :
      (d s k : Text) (at_time db_now : ℕ) (rows : List Row)
      → get_open json no_detail false d s k
          (resolve json no_detail false d s k at_time db_now rows).1
        ≡ err no_rows
  unfolding resolve get_open scan_row
  resolve_closes d s k at_time db_now rows = rw (first-resolved d s k at_time db_now rows)

  -- An Open for a key that has an open alert, with a detail that marshals and a database that
  -- answers, makes no row: it hands out the existing alert with opened=false.
  pub open_existing :
      (id d s k severity : Text) (detail : D) (fired_at db_now : ℕ) (rows : List Row) (text : Text)
      (r : Row) (a : Alert D)
      → json.marshal detail ≡ some text
      → first (open_for d s k) rows ≡ some r
      → scan_alert json no_detail r ≡ ok a
      → open_alert json no_detail false false id d s k severity detail fired_at db_now rows
        ≡ (ok (a, false), rows)
  unfolding open_alert get_open scan_row open_for
  open_existing id d s k severity detail fired_at db_now rows text r a m e scan =
      ground
        (arith, text_eq_iff d d, text_eq_iff s s, text_eq_iff k k, first-violates d s k new rows r)
    where
      new : Row
      new = firing_row json no_detail id d s k severity text fired_at db_now
