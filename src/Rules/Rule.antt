-- ===== src/Rules/Rule.antt =====
-- internal/rules/rules.go, with HasPrefix, HasSuffix and TrimSuffix of the package strings. A
-- consecutive count below 1 is 0; a silence timeout is not negative.
use sense_grid.Common.{
  ℕ, ◌+◌, ◌-◌, ◌≡◌, ◌≢◌, ◌↔◌, inl, inr, Bool, true, false, ◌&&◌, ◌||◌, Option, none, some, List, [],
  ◌∷◌, arith, nat_eq, leb, if◌then◌else◌, ◌==◌, text_Eq, Text, codes, length, take, keep, All,
  Result, ok, err, Option-cases,
}

pub record Rule (F : Type 0) : Type 0 where
  pub name : Text
  pub sensor_type : Text
  pub detector : Text
  pub severity : Text
  pub threshold : F
  pub silence_timeout : ℕ
  pub consecutive : ℕ

abbrev pub zscore : Text
zscore = codes "zscore"

abbrev pub rate_of_change : Text
rate_of_change = codes "rate_of_change"

abbrev pub silence : Text
silence = codes "silence"

unfoldable pub has_prefix : Text → Text → Bool
has_prefix [] t = true
has_prefix (b ∷ p) [] = false
has_prefix (b ∷ p) (c ∷ t) = nat_eq b c && has_prefix p t

unfoldable pub has_suffix : Text → Text → Bool
has_suffix s [] = s == []
has_suffix s (b ∷ t) = s == b ∷ t || has_suffix s t

abbrev pub trim_suffix : Text → Text → Text
trim_suffix s t = if has_suffix s t then take (length t - length s) t else t

unfoldable pub matches : {F : Type 0} → Rule F → Text → Bool
matches r sensor_type =
    if r.sensor_type == codes "*"
    then true
    else if has_suffix (codes ".*") r.sensor_type
    then has_prefix (trim_suffix (codes "*") r.sensor_type) sensor_type
    else r.sensor_type == sensor_type

abbrev pub consecutive_or_default : {F : Type 0} → Rule F → ℕ
consecutive_or_default r = if leb r.consecutive 0 then 1 else r.consecutive

-- The rules of a configuration; a nil configuration has none.
unfoldable pub for_sensor : {F : Type 0} → Option (List (Rule F)) → Text → List (Rule F)
for_sensor none sensor_type = []
for_sensor (some rules) sensor_type = keep (λ r. matches r sensor_type) rules

pub data LoadError : Type 0 where
  unreadable unparseable : LoadError
  unnamed : ℕ → LoadError
  without_sensor : Text → LoadError

abbrev is_blank : Text → Bool
is_blank [] = true
is_blank (b ∷ t) = false

-- The loop of Load over the rules from the i-th.
unfoldable pub check_rules : {F : Type 0} → ℕ → List (Rule F) → Option LoadError
check_rules i [] = none
check_rules i (r ∷ rs) =
    let rest = check_rules (i + 1) rs in
    if is_blank r.name
    then some (unnamed i)
    else if is_blank r.sensor_type
    then some (without_sensor r.name)
    else rest

-- os.ReadFile and yaml.Unmarshal are parameters: what the file holds, and what the text means.
unfoldable pub load :
    {F : Type 0} → (Text → Option (List (Rule F))) → Option Text → Result LoadError (List (Rule F))
load parse none = err unreadable
load parse (some raw) = elim (parse raw) [
  | none ↦ err unparseable
  | some rules ↦ elim (check_rules 0 rules) [ some why ↦ err why | none ↦ ok rules ]
]

-- A rule has a name and names a sensor.
pub record IsNamed {F : Type 0} (r : Rule F) : Type 0 where
  pub named : r.name ≢ []
  pub sensor : r.sensor_type ≢ []

is_blank_iff : (t : Text) → (is_blank t ≡ true) ↔ (t ≡ [])
is_blank_iff [] = ground arith
is_blank_iff (b ∷ t) = ground arith

check_rules-All :
    {F : Type 0} (i : ℕ) (rs : List (Rule F)) → check_rules i rs ≡ none → All IsNamed rs
unfolding check_rules
check_rules-All i [] h = tt
check_rules-All i (r ∷ rs) h = (
  record {
    named = ground (arith, is_blank_iff r.name);
    sensor = ground (arith, is_blank_iff r.sensor_type);
  },
  check_rules-All (i + 1) rs (ground arith),
)

pub load-All :
    {F : Type 0} (parse : Text → Option (List (Rule F))) (file : Option Text)
    (rules : List (Rule F))
    → load parse file ≡ ok rules
    → All IsNamed rules
unfolding load
load-All parse none rules h = ground arith
load-All parse (some raw) rules h = elim (Option-cases (parse raw)) [
  | inl bad ↦ ground arith
  | inr (rs, read) ↦ elim (Option-cases (check_rules 0 rs)) [
    | inr (why, wrong) ↦ ground arith
    | inl good ↦ let same : rs ≡ rules = ground arith in rw (← same) (check_rules-All 0 rs good)
  ]
]
