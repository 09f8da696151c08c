-- ===== src/Examples/Dynsec.antt =====
-- Answers of a broker in an order of their own, and a bootstrap on a broker that has its role.
use sense_grid.Common.{
  ℕ, ◌≡◌, refl, Bool, true, false, some, List, [], ◌∷◌, codes, Text, get_elem?, ok, text_Eq,
  ==_refl, arith, contains,
}
use sense_grid.Dynsec.Client.{
  Response, Caller, new_client, Event, registers, responds, finishes, received, run, finish,
}
use sense_grid.Dynsec.Correlation.{run-new_client}
use sense_grid.Dynsec.Commands.{
  Broker, create_role, create_client_command, done, connect, connect_tls, ensure_role,
  create_client, checked,
}
use sense_grid.Dynsec.Bootstrap.{
  Settings, device_role_name, attempt_dynsec_bootstrap, retry, connect_dynsec, service_accounts,
  control_account,
}
use sense_grid.Dynsec.Ready.{RoleLaws, connect_dynsec-HasRole}

abbrev answer : Text → Response
answer id = record { command = codes "createRole"; correlation_data = id; error = [] }

-- Two commands, whose answers come in one message, and in the other order.
abbrev crossed : List Event
crossed =
    registers (codes "a")
    ∷ registers (codes "b")
    ∷ responds (some (answer (codes "b") ∷ answer (codes "a") ∷ answer (codes "b") ∷ []))
    ∷ finishes 1 received
    ∷ []

run-new_client_example :
    ((run crossed new_client).blocked ≡ false)
    × ((n : ℕ) (caller : Caller) (r : Response)
        → get_elem? (run crossed new_client).callers n ≡ some caller
        → (finish n received (run crossed new_client)).0 ≡ some (ok r)
        → r.correlation_data ≡ caller.id)
run-new_client_example = run-new_client crossed

-- The world is the list of the roles.
abbrev roles_broker : Broker (List Text)
roles_broker = record {
  load_ca = λ file. true;
  dial = λ url user pass timeout w. (done, w);
  subscribe = λ timeout w. (done, w);
  disconnect = λ w. w;
  rpc = λ command w. elim command [
    | create_role name text acls ↦ (some (answer []), name ∷ w)
    | create_client_command user pass id text roles ↦ (some (answer []), w)
  ];
}

abbrev Known : Text → List Text → Type 0
Known role w = contains role w ≡ true

roles_laws : RoleLaws roles_broker Known
roles_laws = record {
  created = λ name text acls w r answered fine. rw (==_refl name) refl;
  keeps = λ role command w h. elim command as (λ k. Known role (roles_broker.rpc k w).1) [
    | create_role name text acls ↦ ground arith
    | create_client_command user pass id text roles ↦ h
  ];
}

abbrev settings : Settings
settings = record {
  mqtt_broker_url = codes "ssl://mosquitto:8883";
  tls_ca_file = codes "ca.crt";
  mqtt_admin_user = codes "admin";
  mqtt_admin_pass = codes "secret";
  mqtt_bridge_user = codes "bridge";
  mqtt_bridge_pass = codes "secret";
  mqtt_control_user = codes "control";
  mqtt_control_pass = codes "secret";
}

abbrev waits : List Text → Bool × List Text
waits w = (false, w)

ready : (connect_dynsec roles_broker settings waits []).0 ≡ true
unfolding connect_dynsec retry attempt_dynsec_bootstrap connect connect_tls ensure_role
    create_client checked service_accounts control_account
ready = refl

connect_dynsec-HasRole_example :
    Known device_role_name (connect_dynsec roles_broker settings waits []).1
connect_dynsec-HasRole_example =
    connect_dynsec-HasRole roles_broker Known roles_laws settings waits [] ready
