-- ===== src/Windowed/Redelivery.antt =====
-- A reading that is delivered twice.
use sense_grid.Common.{
  ℕ, ◌≡◌, refl, sym, ap, ◌∙◌, inl, inr, Bool, false, Option, none, some, List, [], ◌∷◌, ◌==◌,
  ==_refl, text_Eq, Text, lookup, insert, lookup-insert, Float, Result-cases, Bool-cases,
}
use sense_grid.Rules.Rule.{Rule, zscore, rate_of_change, silence, for_sensor}
use sense_grid.Anomaly.Evaluator.{Event, no_change, fired, cleared}
use sense_grid.Alerts.Store.{open_alert}
use sense_grid.Alerts.Store as Table
use sense_grid.Window.Buffer.{Window}
use sense_grid.Window.Buffer as Buffer
use sense_grid.Window.Dedupe.{IsRing, insert-again, insert-false}
use sense_grid.Window.Registry.{Key, key_Eq, Entry, Registry, get, put_window}
use sense_grid.Windowed.Consumer.{
  Consumer, Services, fire, resolve, apply_event, apply_evaluation, evaluate_rule, evaluate_rules,
  process_sample,
}

module _ {F D W : Type 0} (fl : Float F) (sv : Services F D W)
    (config : Option (List (Rule F))) where
  apply-registry :
      (device sensor : Text) (rule : Rule F) (violating : Bool) (score : F) (c : Consumer F W)
      → (apply_evaluation fl sv config device sensor rule violating score c).registry ≡ c.registry
  unfolding apply_evaluation apply_event fire resolve
  apply-registry device sensor rule violating score c = of_event _ _
    where
      of_event :
          (event : Event) (c' : Consumer F W)
          → (apply_event fl sv config event device sensor rule score c').registry ≡ c'.registry
      of_event no_change c' = refl
      of_event fired c' =
          let (id, w1) = sv.new_id c'.world in
          let (t, w2) = sv.now w1 in
          let (down, w3) = sv.is_down w2 in
          let (again, w4) = sv.is_down w3 in
          elim (Result-cases
            (open_alert sv.details sv.no_detail down again id device sensor rule.name rule.severity
              (sv.detail_of score rule.threshold rule.detector) t (sv.db_now w4).0 c'.alerts).0) [
                | inl (e, failed) ↦ rw (failed, fire) refl
                | inr (found, answered) ↦ rw (answered, fire) refl
              ]
      of_event cleared c' =
          let (t, w1) = sv.now c'.world in
          let (down, w2) = sv.is_down w1 in
          elim (Result-cases
            (Table.resolve sv.details sv.no_detail down device sensor rule.name t (sv.db_now w2).0
              c'.alerts).0) [
                | inl (e, failed) ↦ rw (failed, resolve) refl
                | inr (none, answered) ↦ rw (answered, resolve) refl
                | inr (some a, answered) ↦ rw (answered, resolve) refl
              ]

  rule-registry :
      (device sensor : Text) (value : F) (w : Window F) (rule : Rule F) (c : Consumer F W)
      → (evaluate_rule fl sv config device sensor value w rule c).registry ≡ c.registry
  unfolding evaluate_rule
  rule-registry device sensor value w rule c = elim (Bool-cases (rule.detector == silence)) [
    | inl a ↦ rw (a, evaluate_rule) refl
    | inr a ↦
        rw (a, evaluate_rule)
          (elim (Bool-cases (rule.detector == zscore)) [
            | inl b ↦ rw b (apply-registry device sensor rule _ _ c)
            | inr b ↦ rw b (elim (Bool-cases (rule.detector == rate_of_change)) [
              | inl d ↦ rw d (apply-registry device sensor rule _ _ c)
              | inr d ↦ rw d refl
            ])
          ])
  ]

  rules-registry :
      (device sensor : Text) (value : F) (w : Window F) (rs : List (Rule F)) (c : Consumer F W)
      → (evaluate_rules fl sv config device sensor value w rs c).registry ≡ c.registry
  unfolding evaluate_rules
  rules-registry device sensor value w [] c = refl
  rules-registry device sensor value w (r ∷ rs) c =
      rules-registry device sensor value w rs _ ∙ rule-registry device sensor value w r c

  get-lookup :
      (reg : Registry F) (key : Key) (u : ℕ) (e : Entry F)
      → lookup key reg.entries ≡ some e
      → (get fl reg key u).0 ≡ e.window
  unfolding get
  get-lookup reg key u e found = rw (found, get) refl

  lookup-own :
      (key : Key) (e : Entry F) (m : List (Key × Entry F)) → lookup key (insert key e m) ≡ some e
  lookup-own key e m = rw (lookup-insert key key e m) (rw (==_refl key) refl)

  lookup-get :
      (reg : Registry F) (key : Key) (t : ℕ)
      → lookup key (get fl reg key t).1.entries
        ≡ some (record { window = (get fl reg key t).0; last_seen = t })
  unfolding get
  lookup-get reg key t = lookup-own key _ reg.entries

  lookup-put_window :
      (reg : Registry F) (key : Key) (w : Window F) (e : Entry F)
      → lookup key reg.entries ≡ some e
      → lookup key (put_window reg key w).entries ≡ some (record e { window = w })
  unfolding put_window
  lookup-put_window reg key w e found =
      rw (found, put_window) (lookup-own key (record e { window = w }) reg.entries)

  -- The window of the key, after a sample of it.
  window_after :
      (device sensor : Text) (value : F) (device_time seq : ℕ) (trace_id : Text) (u : ℕ)
      (c : Consumer F W)
      → let key : Key = record { device_id = device; sensor_type = sensor } in
        (get fl
          (process_sample fl sv config device device_time seq trace_id (sensor, value) c).registry
          key
          u).0
        ≡ (Buffer.insert fl (get fl c.registry key (sv.now c.world).0).0 device_time value seq).0
  unfolding process_sample
  window_after device sensor value device_time seq trace_id u c =
      let key : Key = record { device_id = device; sensor_type = sensor } in
      let t = (sv.now c.world).0 in
      let (w, touched) = get fl c.registry key t in
      let held = lookup-get c.registry key t in
      elim (Bool-cases (Buffer.insert fl w device_time value seq).1) [
        | inr again ↦
            rw again (
              get-lookup touched key u _ held ∙ sym (insert-false fl w device_time value seq again))
        | inl fresh ↦ rw fresh (
            ap (λ x. (get fl x key u).0)
              (rules-registry device sensor value _ (for_sensor config sensor) _)
            ∙ get-lookup (put_window touched key _) key u _
                (lookup-put_window touched key _ _ held))
      ]

  -- A sample that is delivered again directly after its first delivery, where the ring of its window
  -- is well-formed: the second delivery leaves the evaluator, the alerts and the window as the first
  -- one left them.
  pub process_sample-again :
      (device sensor : Text) (value : F) (device_time seq : ℕ) (trace_id : Text) (u : ℕ)
      (c : Consumer F W)
      → let key : Key = record { device_id = device; sensor_type = sensor } in
        let c' = process_sample fl sv config device device_time seq trace_id (sensor, value) c in
        let c'' = process_sample fl sv config device device_time seq trace_id (sensor, value) c' in
        IsRing (get fl c.registry key (sv.now c.world).0).0
        → (c''.evaluator ≡ c'.evaluator)
          × (c''.alerts ≡ c'.alerts)
          × ((get fl c''.registry key u).0 ≡ (get fl c'.registry key u).0)
  unfolding process_sample
  process_sample-again device sensor value device_time seq trace_id u c ring =
      let key : Key = record { device_id = device; sensor_type = sensor } in
      let c' = process_sample fl sv config device device_time seq trace_id (sensor, value) c in
      let w = (get fl c.registry key (sv.now c.world).0).0 in
      let t' = (sv.now c'.world).0 in
      let w' = (get fl c'.registry key t').0 in
      let same : w' ≡ (Buffer.insert fl w device_time value seq).0 =
        window_after device sensor value device_time seq trace_id t' c in
      let refused : (Buffer.insert fl w' device_time value seq).1 ≡ false =
        ap (λ x. (Buffer.insert fl x device_time value seq).1) same
        ∙ insert-again fl w device_time device_time value value seq ring in
      let after : (get fl
            (process_sample fl sv config device device_time seq trace_id (sensor, value)
              c').registry
            key u).0
          ≡ (get fl c'.registry key u).0 =
        window_after device sensor value device_time seq trace_id u c'
        ∙ insert-false fl w' device_time value seq refused
        ∙ same
        ∙ sym (window_after device sensor value device_time seq trace_id u c) in
      (second_evaluator c' refused, second_alerts c' refused, after)
    where
      second_evaluator :
          (x : Consumer F W)
          → (Buffer.insert fl
              (get fl x.registry
                (record { device_id = device; sensor_type = sensor })
                (sv.now x.world).0).0
              device_time
              value
              seq).1
            ≡ false
          → (process_sample fl sv config device device_time seq trace_id
              (sensor, value)
              x).evaluator
            ≡ x.evaluator
      second_evaluator x refused = rw refused refl

      second_alerts :
          (x : Consumer F W)
          → (Buffer.insert fl
              (get fl x.registry
                (record { device_id = device; sensor_type = sensor })
                (sv.now x.world).0).0
              device_time
              value
              seq).1
            ≡ false
          → (process_sample fl sv config device device_time seq trace_id (sensor, value) x).alerts
            ≡ x.alerts
      second_alerts x refused = rw refused refl
