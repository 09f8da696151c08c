-- ===== src/Anomaly/Evaluator.antt =====
-- internal/anomaly/evaluator.go. The map of counters is an association list; the counters are
-- numbers that do not overflow, and `consecutive`, an int, is 0 for every value below 1.
use sense_grid.Common.{
  ℕ, ◌+◌, ◌≡◌, ◌↔◌, Bool, true, false, not, ◌&&◌, none, some, List, [], arith, leb, if◌then◌else◌,
  Eq, Text, text_eq, text_eq_iff, lookup, insert, delete,
}

pub record Key : Type 0 where
  pub device_id : Text
  pub sensor_type : Text
  pub rule_name : Text

abbrev key_eq : Key → Key → Bool
key_eq a b =
    text_eq a.device_id b.device_id
    && (text_eq a.sensor_type b.sensor_type && text_eq a.rule_name b.rule_name)

pub key_eq_iff : (a b : Key) → (key_eq a b ≡ true) ↔ (a ≡ b)
key_eq_iff a b = ground (
  arith,
  text_eq_iff a.device_id b.device_id,
  text_eq_iff a.sensor_type b.sensor_type,
  text_eq_iff a.rule_name b.rule_name,
)

instance abbrev pub key_Eq : Eq Key
key_Eq = record { eqb = key_eq; eqb_iff = key_eq_iff }

pub data Event : Type 0 where
  no_change fired cleared : Event

pub record Counters : Type 0 where
  pub violations : ℕ
  pub clears : ℕ
  pub opened : Bool

-- `&counters{}`.
abbrev pub fresh : Counters
fresh = record { violations = 0; clears = 0; opened = false }

abbrev pub Evaluator : Type 0
Evaluator = List (Key × Counters)

unfoldable pub new_evaluator : Evaluator
new_evaluator = []

-- The guard at the head of `Update`.
abbrev pub at_least_one : ℕ → ℕ
at_least_one consecutive = if leb consecutive 0 then 1 else consecutive

-- The body of `Update` on the counters that `c` points to.
unfoldable pub observe : Bool → ℕ → Counters → Counters × Event
observe true consecutive c =
    let seen = record c { violations = c.violations + 1; clears = 0 } in
    if not seen.opened && leb consecutive seen.violations
    then (record seen { opened = true }, fired)
    else (seen, no_change)
observe false consecutive c =
    let seen = record c { violations = 0; clears = c.clears + 1 } in
    if seen.opened && leb consecutive seen.clears
    then (record seen { opened = false }, cleared)
    else (seen, no_change)

abbrev pub counters_at : Evaluator → Key → Counters
counters_at e key = elim (lookup key e) [ none ↦ fresh | some c ↦ c ]

unfoldable pub update : Evaluator → Key → Bool → ℕ → Evaluator × Event
update e key violating consecutive =
    let (c, event) = observe violating (at_least_one consecutive) (counters_at e key) in
    (insert key c e, event)

unfoldable pub forget : Evaluator → Key → Evaluator
forget e key = delete key e
