-- ===== src/Examples/Fleet.antt =====
-- A fleet whose files are a map and whose claims are all answered with the same credentials.
use sense_grid.Common.{
  ℕ, ◌≡◌, refl, true, false, Option, none, some, List, [], ◌∷◌, Text, codes, pos, lookup, insert,
  lookup-insert, ==_refl, arith, text_Eq, ok,
}
use sense_grid.Fleet.Runtime.{FleetConfig}
use sense_grid.Fleet.Provisioning.{
  Credentials, Host, load, claim, answer, with_ca, save, save_claimed, load_or_claim,
}
use sense_grid.Fleet.Reuse.{HostLaws, load_or_claim-again}
use sense_grid.Fleet.Tokens.{TokenPool}
use sense_grid.Device.Sampler.{no_stats}
use sense_grid.Fleet.Manager.{FleetHost, FleetManager, DeviceSlot, new_fleet_manager}

abbrev pub Files : Type 0
Files = List (Text × Text)

abbrev pub of_name : Text → Credentials
of_name t = record { device_id = t; name = []; kind = []; mqtt_username = []; mqtt_password = [] }

-- Only credentials without a name and the rest can be written.
abbrev encode : Text → Text → Text → Text → Text → Option Text
encode d [] [] [] [] = some d
encode d n k u p = none

encode-of_name :
    (d n k u p body : Text)
    → encode d n k u p ≡ some body
    → some (of_name body)
      ≡ some (record { device_id = d; name = n; kind = k; mqtt_username = u; mqtt_password = p })
encode-of_name d [] [] [] [] body h = ground arith
encode-of_name d n k u p body h = ground arith

abbrev host : Host Files
host = record {
  read_file = λ path w. (lookup path w, w);
  make_dir = λ path w. (true, w);
  write_file = λ path body w. (true, insert path body w);
  new_uuid = λ w. (codes "u1", w);
  load_ca = λ path w. (true, w);
  post = λ url body w. (some (200, codes "u1"), w);
  requests = record { marshal = λ r. some r.token; unmarshal = λ t. none };
  credentials = record {
    marshal = λ c. encode c.device_id c.name c.kind c.mqtt_username c.mqtt_password;
    unmarshal = λ t. some (of_name t);
  };
}

host_laws : HostLaws host
host_laws = record {
  reads_back =
      λ c body h. encode-of_name c.device_id c.name c.kind c.mqtt_username c.mqtt_password body h;
  holds = λ path body w h. rw (lookup-insert path path body w) (rw (==_refl path) refl);
}

load_or_claim-again_example :
    load_or_claim host
      (codes "f")
      (codes "http")
      []
      []
      (load_or_claim host (codes "f") (codes "http") (codes "t1") [] []).1
    ≡ (
      ok (of_name (codes "u1")),
      (load host
          (codes "f")
          (load_or_claim host (codes "f") (codes "http") (codes "t1") [] []).1).1,
    )
unfolding load_or_claim load claim answer with_ca save save_claimed
load_or_claim-again_example =
    load_or_claim-again host host_laws (codes "f") (codes "http") (codes "t1") [] (codes "http") []
      [] (of_name (codes "u1")) [] refl refl

abbrev pool : TokenPool
pool = record { tokens = codes "t1" ∷ codes "t2" ∷ codes "t3" ∷ []; next = 1 }

abbrev fleet_host : FleetHost Files
fleet_host = record {
  host = host;
  state_file = λ dir i. dir;
  is_there = λ path w. (false, w);
  shuffle = λ is w. (is, w);
}

abbrev pub config : FleetConfig ℕ
config = record {
  initial_target = pos 0;
  tokens_file = [];
  state_dir = codes "d";
  control_url = codes "http";
  sample_interval = 2000000000;
  ramp_window = 3000000000;
  malformed_rate = 0;
  latency_jitter_ms = pos 0;
  clock_skew_jitter_ms = pos 0;
  disconnect_rate = 0;
  step_rate = 0;
  anomaly_rate = 0;
}

abbrev up_slot : ℕ → DeviceSlot
up_slot k = record {
  dev = some (record { creds = of_name (codes "u1"); stats = no_stats; partition_ch = none });
  cancel = some k;
  running = true;
}

-- Two slots run, and the second of them will not be wanted.
abbrev two : FleetManager ℕ
two = record (new_fleet_manager config [] pool) {
  devices = up_slot 0 ∷ up_slot 1 ∷ [];
  target = 2;
  live =
      record { context = 1; idx = 1; start_delay = 0 }
      ∷ record { context = 0; idx = 0; start_delay = 0 }
      ∷ [];
  next_context = 2;
}
