-- ===== src/Control/Auth.antt =====
-- cmd/control/auth.go. golang-jwt is a parameter: `sign` is SignedString with HS256, and `parse` gives the claims of a
-- token whose method, signature, issuer and time it has accepted at `now`.
use sense_grid.Common.{
  ℕ, ◌+◌, Bool, false, Option, none, some, [], ◌∷◌, leb, nat_eq, if◌then◌else◌, ◌==◌, text_Eq, Text,
  codes,
}
use sense_grid.Fleet.Provisioning.{is_empty}

abbrev pub role_viewer : Text
role_viewer = codes "viewer"

abbrev pub role_operator : Text
role_operator = codes "operator"

abbrev pub role_admin : Text
role_admin = codes "admin"

-- `roleRank[role]`, none for a missing key.
unfoldable pub role_rank : Text → Option ℕ
role_rank role =
    if role == role_viewer
    then some 0
    else if role == role_operator
    then some 1
    else if role == role_admin
    then some 2
    else none

unfoldable pub role_allows : Text → Text → Bool
unfolding role_rank
role_allows have need = elim (role_rank have) [
  | none ↦ false
  | some h ↦ elim (role_rank need) [ none ↦ false | some n ↦ leb n h ]
]

pub record Claims : Type 0 where
  pub role : Text
  pub subject : Text
  pub issuer : Text
  pub issued_at : ℕ
  pub expires_at : ℕ

pub record Jwt : Type 0 where
  -- NewNumericDate, which drops the fraction of a second.
  pub numeric_date : ℕ → ℕ
  pub sign : Text → Claims → Option Text
  -- Of a key, an issuer, the time and a token.
  pub parse : Text → Text → ℕ → Text → Option Claims

abbrev pub bearer : Text
bearer = codes "Bearer "

-- strings.CutPrefix.
abbrev pub cut_prefix : Text → Text → Option Text
cut_prefix [] s = some s
cut_prefix (c ∷ p) [] = none
cut_prefix (c ∷ p) (d ∷ s) = if nat_eq d c then cut_prefix p s else none

module _ (jwt : Jwt) where
  unfoldable pub sign_token : Text → Text → ℕ → Text → Text → ℕ → Option Text
  unfolding role_rank
  sign_token role issuer ttl signing_key subject now = elim (role_rank role) [
    | none ↦ none
    | some r ↦ jwt.sign signing_key (record {
      role = role;
      subject = subject;
      issuer = issuer;
      issued_at = jwt.numeric_date now;
      expires_at = jwt.numeric_date (now + ttl);
    })
  ]

  -- The role and the subject.
  unfoldable pub verify_token : Text → Text → Text → ℕ → Option (Text × Text)
  unfolding role_rank
  verify_token [] issuer signing_key now = none
  verify_token (t ∷ ts) issuer signing_key now = elim (jwt.parse signing_key issuer now (t ∷ ts)) [
    | none ↦ none
    | some c ↦ elim (role_rank c.role) [ none ↦ none | some r ↦ some (c.role, c.subject) ]
  ]

  -- `header` is the value of Authorization, "" where it is missing.
  unfoldable pub verify_bearer : Text → Text → Text → ℕ → Option Text
  unfolding verify_token
  verify_bearer header issuer signing_key now = elim (cut_prefix bearer header) [
    | none ↦ none
    | some t ↦ if is_empty t then none else elim (verify_token t issuer signing_key now) [
      | none ↦ none
      | some (role, s) ↦ some role
    ]
  ]

  pub data Gate : Type 0 where
    unauthorized forbidden : Gate
    passed : Text → Gate

  -- requireRole: what it answers itself, or the role that the handler runs with.
  unfoldable pub require_role : Text → Text → Text → Text → ℕ → Gate
  unfolding verify_bearer role_allows
  require_role min_role issuer signing_key header now =
      elim (verify_bearer header issuer signing_key now) [
        | none ↦ unauthorized
        | some role ↦ if role_allows role min_role then passed role else forbidden
      ]
