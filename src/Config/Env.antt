-- ===== src/Config/Env.antt =====
-- The readers of environment variables of internal/config/config.go and of cmd/fleet/config.go.
-- strconv.Atoi, strconv.ParseFloat and time.ParseDuration are parameters; a duration is a signed
-- number of nanoseconds.
use sense_grid.Common.{Option, none, some, [], ◌∷◌, Text, ℤ, of_seconds}

-- os.LookupEnv.
abbrev pub Env : Type 0
Env = Text → Option Text

pub record Parsers (F : Type 0) : Type 0 where
  pub atoi : Text → Option ℤ
  pub parse_float : Text → Option F
  pub parse_duration : Text → Option ℤ

-- The value of a variable that is set and not empty.
unfoldable pub set_value : Option Text → Option Text
set_value none = none
set_value (some []) = none
set_value (some (c ∷ cs)) = some (c ∷ cs)

unfoldable pub or_fallback : {A : Type 0} → Option A → A → A
or_fallback none fallback = fallback
or_fallback (some a) fallback = a

unfoldable pub get_env : Env → Text → Text → Text
unfolding set_value or_fallback
get_env env key fallback = or_fallback (set_value (env key)) fallback

module _ {F : Type 0} (p : Parsers F) (env : Env) where
  unfoldable pub get_int : Text → ℤ → ℤ
  unfolding set_value or_fallback
  get_int key fallback = elim (set_value (env key)) [
    | none ↦ fallback
    | some v ↦ or_fallback (p.atoi v) fallback
  ]

  unfoldable pub get_float : Text → F → F
  unfolding set_value or_fallback
  get_float key fallback = elim (set_value (env key)) [
    | none ↦ fallback
    | some v ↦ or_fallback (p.parse_float v) fallback
  ]

  -- A whole number is one of seconds.
  unfoldable pub get_duration : Text → ℤ → ℤ
  unfolding set_value or_fallback
  get_duration key fallback = elim (set_value (env key)) [
    | none ↦ fallback
    | some v ↦ elim (p.atoi v) [
      | some secs ↦ of_seconds secs
      | none ↦ or_fallback (p.parse_duration v) fallback
    ]
  ]

  -- getEnvDuration of cmd/fleet, which takes no whole number of seconds.
  unfoldable pub get_env_duration : Text → ℤ → ℤ
  unfolding set_value or_fallback
  get_env_duration key fallback = elim (set_value (env key)) [
    | none ↦ fallback
    | some v ↦ or_fallback (p.parse_duration v) fallback
  ]
