-- ===== src/Dynsec/Bootstrap.antt =====
-- connectDynsec and attemptDynsecBootstrap of cmd/control/main.go: the roles of the broker and the
-- two service accounts. A client is the flag `true`.
use sense_grid.Common.{
  ℕ, zero, suc, Bool, true, false, ◌||◌, none, some, List, [], ◌∷◌, if◌then◌else◌, nat_eq, text_Eq,
  Text, codes, negsuc,
}
use sense_grid.Dynsec.Commands.{Acl, Broker, Config, is_empty, ensure_role, create_client, connect}

-- The fields of config.Config that the bootstrap reads.
pub record Settings : Type 0 where
  pub mqtt_broker_url : Text
  pub tls_ca_file : Text
  pub mqtt_admin_user : Text
  pub mqtt_admin_pass : Text
  pub mqtt_bridge_user : Text
  pub mqtt_bridge_pass : Text
  pub mqtt_control_user : Text
  pub mqtt_control_pass : Text

abbrev pub device_role_name : Text
device_role_name = codes "device"

abbrev pub bridge_role_name : Text
bridge_role_name = codes "bridge"

abbrev pub control_role_name : Text
control_role_name = codes "control"

abbrev pub allowed : Text → Text → Acl
allowed acl_type topic = record {
  acl_type = acl_type;
  topic = topic;
  priority = negsuc 0;
  allow = true;
}

abbrev pub device_acls : List Acl
device_acls =
    allowed (codes "publishClientSend") (codes "sensegrid/v1/%c/telemetry")
    ∷ allowed (codes "publishClientSend") (codes "sensegrid/v1/%c/state")
    ∷ allowed (codes "subscribePattern") (codes "sensegrid/v1/%c/config")
    ∷ allowed (codes "publishClientReceive") (codes "sensegrid/v1/%c/config")
    ∷ []

abbrev pub bridge_acls : List Acl
bridge_acls =
    allowed (codes "subscribeLiteral") (codes "sensegrid/v1/+/telemetry")
    ∷ allowed (codes "publishClientReceive") (codes "sensegrid/v1/+/telemetry")
    ∷ []

abbrev pub control_acls : List Acl
control_acls =
    allowed (codes "publishClientSend") (codes "sensegrid/v1/+/config")
    ∷ allowed (codes "subscribeLiteral") (codes "sensegrid/v1/+/state")
    ∷ allowed (codes "publishClientReceive") (codes "sensegrid/v1/+/state")
    ∷ []

abbrev pub dynsec_config : Settings → Config
dynsec_config cfg = record {
  broker_url = cfg.mqtt_broker_url;
  ca_file = cfg.tls_ca_file;
  username = cfg.mqtt_admin_user;
  password = cfg.mqtt_admin_pass;
  timeout = 0;
}

abbrev pub device_role_text : Text
device_role_text = codes "SenseGrid provisioned device"

module _ {W : Type 0} (b : Broker W) (cfg : Settings) where
  -- The rest of the bootstrap, once the role of the devices is ready: its failures are logged only.
  unfoldable pub control_account : W → W
  control_account w =
      let (failed, w1) =
        ensure_role b control_role_name (codes "SenseGrid control plane") control_acls w in
      let (lost, w2) =
        create_client b cfg.mqtt_control_user cfg.mqtt_control_pass
          (codes "control plane service account") control_role_name w1 in
      if is_empty cfg.mqtt_control_user || is_empty cfg.mqtt_control_pass
      then w
      else elim failed [ some e ↦ w1 | none ↦ w2 ]

  unfoldable pub service_accounts : W → W
  unfolding control_account
  service_accounts w =
      let (failed, w1) =
        ensure_role b bridge_role_name (codes "SenseGrid ingest bridge") bridge_acls w in
      let (lost, w2) =
        create_client b cfg.mqtt_bridge_user cfg.mqtt_bridge_pass
          (codes "ingest bridge service account") bridge_role_name w1 in
      if is_empty cfg.mqtt_bridge_user || is_empty cfg.mqtt_bridge_pass then w else elim failed [
        | some e ↦ w1
        | none ↦ elim lost [ some e ↦ w2 | none ↦ control_account w2 ]
      ]

  unfoldable pub attempt_dynsec_bootstrap : W → Bool × W
  unfolding service_accounts
  attempt_dynsec_bootstrap w =
      let (unconnected, w1) = connect b (dynsec_config cfg) w in
      let (failed, w2) = ensure_role b device_role_name device_role_text device_acls w1 in
      elim unconnected [
        | some e ↦ (false, w1)
        | none ↦ elim failed [
          | some e ↦ (false, b.disconnect w2)
          | none ↦ (true, service_accounts w2)
        ]
      ]

  -- `attempts` are left; `wait` says whether the context is done before the delay is over.
  unfoldable pub retry : (W → Bool × W) → ℕ → W → Bool × W
  unfolding attempt_dynsec_bootstrap
  retry wait zero w = (false, w)
  retry wait (suc attempts) w =
      let (ready, w1) = attempt_dynsec_bootstrap w in
      let (cancelled, w2) = wait w1 in
      let rest = retry wait attempts w2 in
      if ready
      then (true, w1)
      else if nat_eq attempts 0
      then (false, w1)
      else if cancelled
      then (false, w2)
      else rest

  unfoldable pub connect_dynsec : (W → Bool × W) → W → Bool × W
  unfolding retry
  connect_dynsec wait w =
      if is_empty cfg.mqtt_admin_user || is_empty cfg.mqtt_admin_pass
      then (false, w)
      else retry wait 3 w
