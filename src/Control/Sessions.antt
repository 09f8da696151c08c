-- ===== src/Control/Sessions.antt =====
-- Who can log in, and what the token of a login is good for.
use sense_grid.Common.{
  ℕ, ◌+◌, ◌<◌, ◌≡◌, refl, inl, inr, Bool, true, ◌||◌, Option, none, some, List, arith, ◌++◌,
  if◌then◌else◌, text_Eq, Text, Bool-cases, Option-cases,
}
use sense_grid.Fleet.Provisioning.{is_empty}
use sense_grid.Control.Auth.{Jwt, passed, forbidden, bearer, role_allows, sign_token, require_role}
use sense_grid.Control.Access.{JwtLaws, require_role-sign_token}
use sense_grid.Control.Login.{
  User, LoginRequest, LoginResponse, logged_in, find_user, get_by_username, answer, issue, login,
}

module _ (jwt : Jwt) (matches : Text → Text → Bool) (issuer key : Text) (ttl : ℕ) where
  answer-logged_in :
      (password : Text) (o : Option User) (now signed_at : ℕ) (r : LoginResponse)
      → answer jwt matches issuer key ttl password o now signed_at ≡ logged_in r
      → (u : User) × (o ≡ some u)
        × (matches u.password_hash password ≡ true)
        × (r.role ≡ u.role)
        × (r.expires_at ≡ now + ttl)
        × (sign_token jwt u.role issuer ttl key u.username signed_at ≡ some r.access_token)
  unfolding answer issue
  answer-logged_in password none now signed_at r h = ground arith
  answer-logged_in password (some u) now signed_at r h =
      elim (Bool-cases (matches u.password_hash password)) [
        | inr wrong ↦ ground arith
        | inl right ↦
            elim (Option-cases (sign_token jwt u.role issuer ttl key u.username signed_at)) [
              | inl e ↦ ground arith
              | inr (token, e) ↦ (u, refl, right, ground arith, ground arith, ground arith)
            ]
      ]

  -- A login succeeds only for a user of the table with a password that matches its hash; and until its
  -- token expires, it passes requireRole with the user's role where that role is allowed.
  pub login-logged_in :
      (laws : JwtLaws jwt) (down : Bool) (req : LoginRequest) (now signed_at later : ℕ)
      (users : List User) (r : LoginResponse) (min_role : Text)
      → login jwt matches issuer key ttl down (some req) now signed_at users ≡ logged_in r
      → later < jwt.numeric_date (signed_at + ttl)
      → (u : User) × (find_user req.username users ≡ some u)
        × (matches u.password_hash req.password ≡ true)
        × (require_role jwt min_role issuer key (bearer ++ r.access_token) later
            ≡ (if role_allows u.role min_role then passed u.role else forbidden))
  unfolding login get_by_username
  login-logged_in laws down req now signed_at later users r min_role h l =
      elim (Bool-cases (is_empty req.username || is_empty req.password)) [
        | inl blank ↦ ground arith
        | inr full ↦ elim (Bool-cases down) [
          | inl e ↦ ground arith
          | inr up ↦
              let answered : answer jwt matches issuer key ttl req.password
                    (find_user req.username users) now signed_at
                  ≡ logged_in r =
                ground arith in
              let (u, found, right, role, expiry, signed) =
                answer-logged_in req.password (find_user req.username users) now signed_at r
                  answered in
              (
                u,
                found,
                right,
                require_role-sign_token jwt laws u.role issuer ttl key u.username min_role
                    r.access_token signed_at later signed l,
              )
        ]
      ]
