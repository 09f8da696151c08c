-- ===== src/Control/Login.antt =====
-- internal/users/store.go over the table of deploy/migrations/0008_users.sql, and the handler of POST /v1/auth/login in
-- cmd/control/auth_login.go. bcrypt is a parameter; `down` says that the database does not answer.
use sense_grid.Common.{
  ℕ, ◌+◌, Bool, true, false, ◌||◌, not, Option, none, some, List, [], ◌∷◌, if◌then◌else◌, ◌==◌,
  text_Eq, Text, codes,
}
use sense_grid.Fleet.Provisioning.{is_empty}
use sense_grid.Control.Auth.{Jwt, sign_token, role_viewer, role_operator, role_admin}

pub record User : Type 0 where
  pub id : Text
  pub username : Text
  pub password_hash : Text
  pub role : Text
  pub created_at : ℕ

-- `WHERE username = $1`.
abbrev pub find_user : Text → List User → Option User
find_user name [] = none
find_user name (u ∷ us) = if u.username == name then some u else find_user name us

abbrev pub has_id : Text → List User → Bool
has_id id [] = false
has_id id (u ∷ us) = if u.id == id then true else has_id id us

-- The CHECK on the role.
abbrev pub is_role : Text → Bool
is_role role = role == role_viewer || (role == role_operator || role == role_admin)

-- Create, none for an error: both the id and the username are unique.
unfoldable pub create : Bool → Text → ℕ → Text → Text → Text → List User → Option User × List User
create down new_id now username password_hash role users =
    let u : User = record {
      id = new_id;
      username = username;
      password_hash = password_hash;
      role = role;
      created_at = now;
    } in
    elim (find_user username users) [
      | some v ↦ (none, users)
      | none ↦
          if down || (has_id new_id users || not (is_role role))
          then (none, users)
          else (some u, u ∷ users)
    ]

-- GetByUsername, none for an error.
unfoldable pub get_by_username : Bool → Text → List User → Option (Option User)
get_by_username down username users = if down then none else some (find_user username users)

pub record LoginRequest : Type 0 where
  pub username : Text
  pub password : Text

pub record LoginResponse : Type 0 where
  pub access_token : Text
  pub role : Text
  pub username : Text
  pub expires_at : ℕ

pub data Login : Type 0 where
  bad_request unauthorized internal_error : Login
  logged_in : LoginResponse → Login

-- The hash that stands in for that of an unknown user.
abbrev pub fixed_hash : Text
fixed_hash = codes "$2a$10$CwTycUXWue0Thq9StjUM0uJ8vGaJ07k4PQXHt5cJ1G0/PkQ8p2p3O"

abbrev pub hash_of : Option User → Text
hash_of none = fixed_hash
hash_of (some u) = u.password_hash

module _ (jwt : Jwt) (matches : Text → Text → Bool) (issuer signing_key : Text)
    (console_ttl : ℕ) where
  -- The answer once the password matches.
  unfoldable pub issue : Option User → ℕ → ℕ → Login
  unfolding sign_token
  issue none now signed_at = unauthorized
  issue (some u) now signed_at =
      elim (sign_token jwt u.role issuer console_ttl signing_key u.username signed_at) [
        | none ↦ internal_error
        | some token ↦ logged_in (record {
          access_token = token;
          role = u.role;
          username = u.username;
          expires_at = now + console_ttl;
        })
      ]

  unfoldable pub answer : Text → Option User → ℕ → ℕ → Login
  unfolding issue
  answer password u now signed_at =
      if matches (hash_of u) password then issue u now signed_at else unauthorized

  -- The handler; a body that does not decode is none. It reads the clock, and signToken reads it again.
  unfoldable pub login : Bool → Option LoginRequest → ℕ → ℕ → List User → Login
  unfolding answer get_by_username
  login down none now signed_at users = bad_request
  login down (some req) now signed_at users =
      if is_empty req.username || is_empty req.password
      then bad_request
      else elim (get_by_username down req.username users) [
        | none ↦ internal_error
        | some u ↦ answer req.password u now signed_at
      ]
