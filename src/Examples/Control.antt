-- ===== src/Examples/Control.antt =====
-- Claims, tokens of cmd/control, and a configuration that a device refuses, at concrete inputs.
use sense_grid.Common.{
  List, text_eq, text_eq_iff, ℕ, ◌<◌, ◌≡◌, refl, true, false, Option, none, some, [], ◌∷◌, ◌++◌,
  ltb, arith, Text, codes, Codec, text_Eq, if◌then◌else◌,
}
use sense_grid.Fleet.Provisioning.{ClaimRequest, is_empty}
use sense_grid.Control.Tokens.{TokenRecord}
use sense_grid.Control.Claim.{Outside, Control, created, lost, unauthorized, claim}
use sense_grid.Control.Claims.{IsProvisioned, run, run-IsProvisioned, claim-once}
use sense_grid.Control.Auth.{
  Jwt, Claims, role_rank, role_allows, sign_token, verify_token, verify_bearer, require_role,
  bearer, passed, forbidden,
}
use sense_grid.Control.Login.{User, find_user, get_by_username, answer, issue, login}
use sense_grid.Control.Sessions.{login-logged_in}
use sense_grid.Control.Access.{JwtLaws, require_role-sign_token, require_role-passed}

abbrev records : Codec TokenRecord
records = record {
  marshal = λ r. some r.name;
  unmarshal = λ t. some (record { name = t; kind = codes "fleet" });
}

abbrev outside : Outside
outside = record {
  no_dynsec = false;
  redis_down = false;
  password = some (codes "secret");
  database_down = false;
  now = 5;
  broker = lost;
  host = codes "control:8080";
}

abbrev request : ClaimRequest
request = record { token = codes "t1"; device_id = codes "d1" }

abbrev control : Control
control = record {
  tokens = (codes "sensegrid:regtoken:t1", codes "lamp") ∷ [];
  devices = [];
  clients = [];
}

run-IsProvisioned_example : IsProvisioned (
    run records
      (λ t. true)
      (λ t. t)
      ((outside, some request) ∷ (record outside { broker = created }, some request) ∷ [])
      control)
run-IsProvisioned_example =
    run-IsProvisioned records (λ t. true) (λ t. t)
      ((outside, some request) ∷ (record outside { broker = created }, some request) ∷ []) control
      tt

-- The broker's answer to the first claim was lost; the second is refused.
claim-once_example :
    (claim records
      (λ t. true)
      (λ t. t)
      (record outside { broker = created })
      (some request)
      (claim records (λ t. true) (λ t. t) outside (some request) control).1).0
    ≡ unauthorized
claim-once_example =
    claim-once records (λ t. true) (λ t. t) outside (record outside { broker = created }) request
      request control (record { connected = refl; full = refl; uuid = refl; redis = refl })
      (record { connected = refl; full = refl; uuid = refl; redis = refl }) refl

-- Only claims of an operator without an issuer are signed; a token is its times and its subject.
abbrev signed : Text → Text → Text → ℕ → ℕ → Option Text
signed role subject [] issued expires =
    if text_eq role (codes "operator") then some (issued ∷ expires ∷ subject) else none
signed role subject (c ∷ cs) issued expires = none

abbrev claims_of : Text → ℕ → ℕ → Claims
claims_of subject issued expires = record {
  role = codes "operator";
  subject = subject;
  issuer = [];
  issued_at = issued;
  expires_at = expires;
}

abbrev parsed : ℕ → Text → Option Claims
parsed now [] = none
parsed now (i ∷ []) = none
parsed now (i ∷ e ∷ subject) = if ltb now e then some (claims_of subject i e) else none

parsed-signed :
    (role subject issuer token : Text) (issued expires now : ℕ)
    → signed role subject issuer issued expires ≡ some token
    → now < expires
    → parsed now token
      ≡ some (record {
        role = role;
        subject = subject;
        issuer = issuer;
        issued_at = issued;
        expires_at = expires;
      })
parsed-signed role subject [] [] issued expires now h l = ground arith
parsed-signed role subject [] (i ∷ []) issued expires now h l = ground arith
parsed-signed role subject [] (i ∷ e ∷ t) issued expires now h l =
    ground (arith, text_eq_iff role (codes "operator"))
parsed-signed role subject (c ∷ cs) token issued expires now h l = ground arith

signed-not_empty :
    (role subject issuer token : Text) (issued expires : ℕ)
    → signed role subject issuer issued expires ≡ some token
    → is_empty token ≡ false
signed-not_empty role subject [] [] issued expires h = ground arith
signed-not_empty role subject [] (i ∷ t) issued expires h = refl
signed-not_empty role subject (c ∷ cs) token issued expires h = ground arith

abbrev jwt : Jwt
jwt = record {
  numeric_date = λ t. t;
  sign = λ key c. signed c.role c.subject c.issuer c.issued_at c.expires_at;
  parse = λ key issuer now token. parsed now token;
}

jwt_laws : JwtLaws jwt
jwt_laws = record {
  parses = λ key token c now h l.
      parsed-signed c.role c.subject c.issuer token c.issued_at c.expires_at now h l;
  not_empty =
      λ key token c h. signed-not_empty c.role c.subject c.issuer token c.issued_at c.expires_at h;
}

-- A token of an operator, made at 10 for 90 and shown at 70.
require_role-sign_token_example :
    require_role jwt (codes "viewer") [] (codes "k") (bearer ++ (10 ∷ 100 ∷ codes "ann")) 70 ≡ (
      if role_allows (codes "operator") (codes "viewer")
      then passed (codes "operator")
      else forbidden)
unfolding sign_token role_rank
require_role-sign_token_example =
    require_role-sign_token jwt jwt_laws (codes "operator") [] 90 (codes "k") (codes "ann")
      (codes "viewer") (10 ∷ 100 ∷ codes "ann") 10 70 refl (omega arith)

require_role-passed_example :
    (token : Text) × (c : Claims) × (bearer ++ (10 ∷ 100 ∷ codes "ann") ≡ bearer ++ token)
    × (parsed 70 token ≡ some c)
    × (c.role ≡ codes "operator")
    × (role_allows (codes "operator") (codes "operator") ≡ true)
unfolding require_role verify_bearer verify_token role_allows role_rank
require_role-passed_example =
    require_role-passed jwt (codes "operator") [] (codes "k") (bearer ++ (10 ∷ 100 ∷ codes "ann"))
      70 (codes "operator") refl

abbrev users : List User
users =
    record {
      id = codes "u1";
      username = codes "ann";
      password_hash = codes "h";
      role = codes "operator";
      created_at = 1;
    }
    ∷ []

login-logged_in_example :
    (u : User) × (find_user (codes "ann") users ≡ some u)
    × (text_eq u.password_hash (codes "h") ≡ true)
    × (require_role jwt (codes "admin") [] (codes "k") (bearer ++ (11 ∷ 101 ∷ codes "ann")) 70
        ≡ (if role_allows u.role (codes "admin") then passed u.role else forbidden))
unfolding login answer issue get_by_username sign_token role_rank
login-logged_in_example =
    login-logged_in jwt text_eq [] (codes "k") 90 jwt_laws false
      (record { username = codes "ann"; password = codes "h" }) 10 11 70 users
      (record {
        access_token = 11 ∷ 101 ∷ codes "ann";
        role = codes "operator";
        username = codes "ann";
        expires_at = 100;
      })
      (codes "admin") refl (omega arith)
