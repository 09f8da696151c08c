-- ===== src/Dynsec/Commands.antt =====
-- The commands of internal/dynsec/client.go over `do`, and Connect. W is what lies behind the
-- connection; `rpc` is a call of `do` that ends, with its response or an error.
use sense_grid.Common.{
  ℕ, Bool, true, false, not, ◌&&◌, ◌||◌, Option, none, some, List, [], ◌∷◌, if◌then◌else◌, nat_eq,
  ◌==◌, text_Eq, Text, codes, ℤ, negsuc,
}
use sense_grid.Dynsec.Client.{Response}

pub record Acl : Type 0 where
  pub acl_type : Text
  pub topic : Text
  pub priority : ℤ
  pub allow : Bool

pub record RoleRef : Type 0 where
  pub role_name : Text
  pub priority : ℤ

pub data Command : Type 0 where
  create_role : Text → Text → List Acl → Command
  -- username, password, clientid, textname and roles.
  create_client_command : Text → Text → Text → Text → List RoleRef → Command

pub data Outcome : Type 0 where
  timed_out refused done : Outcome

pub record Broker (W : Type 0) : Type 0 where
  pub load_ca : Text → Bool
  pub dial : Text → Text → Text → ℕ → W → Outcome × W
  pub subscribe : ℕ → W → Outcome × W
  pub disconnect : W → W
  pub rpc : Command → W → Option Response × W

pub data Error : Type 0 where
  loading_ca connect_timed_out connect_failed subscribe_timed_out subscribe_failed : Error
  no_answer : Error
  refused_by_broker : Text → Error

pub record Config : Type 0 where
  pub broker_url : Text
  pub ca_file : Text
  pub username : Text
  pub password : Text
  pub timeout : ℕ

abbrev pub err_role_exists : Text
err_role_exists = codes "Role already exists"

abbrev pub err_client_exists : Text
err_client_exists = codes "Client already exists"

abbrev pub is_empty : Text → Bool
is_empty [] = true
is_empty (b ∷ s) = false

-- `resp.Error != "" && resp.Error != exists`, after the error of `do`.
unfoldable pub checked : Text → Option Response → Option Error
checked exists none = some no_answer
checked exists (some resp) =
    if is_empty resp.error || resp.error == exists
    then none
    else some (refused_by_broker resp.error)

module _ {W : Type 0} (b : Broker W) where
  unfoldable pub ensure_role : Text → Text → List Acl → W → Option Error × W
  unfolding checked
  ensure_role rolename textname acls w =
      let (resp, w1) = b.rpc (create_role rolename textname acls) w in
      (checked err_role_exists resp, w1)

  -- username and clientid are both the id of the device.
  unfoldable pub create_client : Text → Text → Text → Text → W → Option Error × W
  unfolding checked
  create_client device_id password textname rolename w =
      let refs = record { role_name = rolename; priority = negsuc 0 } ∷ [] in
      let (resp, w1) = b.rpc (create_client_command device_id password device_id textname refs) w in
      (checked err_client_exists resp, w1)

  -- Connect behind the check of the CA file: a subscription that fails ends the connection.
  unfoldable pub connect_tls : Config → ℕ → W → Option Error × W
  connect_tls cfg timeout w =
      let (dialed, w1) = b.dial cfg.broker_url cfg.username cfg.password timeout w in
      let (subscribed, w2) = b.subscribe timeout w1 in
      elim dialed [
        | timed_out ↦ (some connect_timed_out, w1)
        | refused ↦ (some connect_failed, w1)
        | done ↦ elim subscribed [
          | timed_out ↦ (some subscribe_timed_out, b.disconnect w2)
          | refused ↦ (some subscribe_failed, b.disconnect w2)
          | done ↦ (none, w2)
        ]
      ]

  -- The timeout defaults to ten seconds.
  unfoldable pub connect : Config → W → Option Error × W
  unfolding connect_tls
  connect cfg w =
      let timeout = if nat_eq cfg.timeout 0 then 10000000000 else cfg.timeout in
      if not (is_empty cfg.ca_file) && not (b.load_ca cfg.ca_file)
      then (some loading_ca, w)
      else connect_tls cfg timeout w
