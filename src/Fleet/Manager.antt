-- ===== src/Fleet/Manager.antt =====
-- FleetManager of cmd/fleet/manager.go. A slot's device is what the manager reads of it: its
-- credentials, its counters and its channel of partition commands. A run is a goroutine of a device: its
-- context, its slot and the delay that it starts with; it is live until its context is cancelled.
use sense_grid.Common.{
  ℕ, zero, suc, ◌+◌, ◌*◌, ◌/◌, Bool, true, false, ◌&&◌, not, Option, none, some, List, [], ◌∷◌, ltb,
  nat_eq, if◌then◌else◌, Text, length, set, keep, ℤ, pos, ok, err,
}
use sense_grid.Fleet.Runtime.{FleetConfig, RuntimeConfig, runtime_config_from_fleet_config}
use sense_grid.Fleet.Provisioning.{Credentials, Host, load_or_claim}
use sense_grid.Fleet.Tokens.{TokenPool, take_token}
use sense_grid.Device.Sampler.{DeviceStats, no_stats}

pub record Dev : Type 0 where
  pub creds : Credentials
  pub stats : DeviceStats
  pub partition_ch : Option ℕ

pub record DeviceSlot : Type 0 where
  pub dev : Option Dev
  pub cancel : Option ℕ
  pub running : Bool

pub record Run : Type 0 where
  pub context : ℕ
  pub idx : ℕ
  pub start_delay : ℕ

pub record FleetManager (F : Type 0) : Type 0 where
  pub devices : List DeviceSlot
  pub target : ℕ
  pub tokens : TokenPool
  pub cfg : FleetConfig F
  pub ca_file : Text
  pub rt_cfg : RuntimeConfig F
  pub live : List Run
  pub next_context : ℕ

pub record FleetHost (W : Type 0) : Type 0 where
  pub host : Host W
  -- The path of the credentials of a slot, and whether os.Stat finds it.
  pub state_file : Text → ℕ → Text
  pub is_there : Text → W → Bool × W
  pub shuffle : List ℕ → W → List ℕ × W

abbrev pub empty_slot : DeviceSlot
empty_slot = record { dev = none; cancel = none; running = false }

unfoldable pub new_fleet_manager : {F : Type 0} → FleetConfig F → Text → TokenPool → FleetManager F
new_fleet_manager cfg ca_file tokens = record {
  devices = [];
  target = 0;
  tokens = tokens;
  cfg = cfg;
  ca_file = ca_file;
  rt_cfg = runtime_config_from_fleet_config cfg;
  live = [];
  next_context = 0;
}

abbrev pub clamp : ℤ → ℕ
clamp (pos n) = n
clamp (ℤ.negsuc n) = 0

-- `for len(m.devices) < target { append }`, at most `target` times.
abbrev pub grow : ℕ → List DeviceSlot → List DeviceSlot
grow zero ds = ds
grow (suc n) [] = empty_slot ∷ grow n []
grow (suc n) (d ∷ ds) = d ∷ grow n ds

-- The slots that want to run and do not, and those that run and should not, from index `i` on.
abbrev pub to_start : ℕ → ℕ → List DeviceSlot → List ℕ
to_start target i [] = []
to_start target i (s ∷ ss) =
    if ltb i target && not s.running
    then i ∷ to_start target (suc i) ss
    else to_start target (suc i) ss

abbrev pub to_stop : ℕ → ℕ → List DeviceSlot → List ℕ
to_stop target i [] = []
to_stop target i (s ∷ ss) =
    if not (ltb i target) && s.running
    then i ∷ to_stop target (suc i) ss
    else to_stop target (suc i) ss

abbrev pub cancel_run : Option ℕ → List Run → List Run
cancel_run none live = live
cancel_run (some c) live = keep (λ r. not (nat_eq r.context c)) live

abbrev pub slot_at : ℕ → List DeviceSlot → DeviceSlot
slot_at i [] = empty_slot
slot_at zero (s ∷ ss) = s
slot_at (suc i) (s ∷ ss) = slot_at i ss

abbrev pub max_stagger : ℕ
max_stagger = 200000000

abbrev pub min_stagger : ℕ
min_stagger = 2000000

-- The delay between the starts of one call, for `n > 0` slots.
unfoldable pub stagger : ℕ → ℕ → ℕ
stagger ramp_window n =
    let s = ramp_window / n in
    let s1 = if ltb s min_stagger then min_stagger else s in
    if ltb max_stagger s1 then max_stagger else s1

module _ {F : Type 0} where
  unfoldable pub stop_slot : ℕ → FleetManager F → FleetManager F
  stop_slot i m =
      let s = slot_at i m.devices in
      record m {
        devices = set m.devices i (record s { running = false });
        live = cancel_run s.cancel m.live;
      }

  unfoldable pub stop_all : List ℕ → FleetManager F → FleetManager F
  unfolding stop_slot
  stop_all [] m = m
  stop_all (i ∷ is) m = stop_all is (stop_slot i m)

  -- The end of startSlot, with the credentials.
  unfoldable pub started : ℕ → ℕ → Credentials → FleetManager F → FleetManager F
  started i delay creds m = record m {
    devices = set m.devices i (record {
      dev = some (record { creds = creds; stats = no_stats; partition_ch = none });
      cancel = some m.next_context;
      running = true;
    });
    live = record { context = m.next_context; idx = i; start_delay = delay } ∷ m.live;
    next_context = m.next_context + 1;
  }

-- The token of a claim: "" where a credentials file is there, or none is left.
unfoldable pub token_for : {W : Type 0} → FleetHost W → Text → TokenPool → W → Text × TokenPool × W
unfolding take_token
token_for h path p w =
    let (there, w1) = h.is_there path w in
    let (t, p1) = take_token p in
    if there then ([], p, w1) else (elim t [ none ↦ [] | some token ↦ token ], p1, w1)

module _ {F W : Type 0} (h : FleetHost W) where
  unfoldable pub claim_slot : ℕ → ℕ → FleetManager F → W → FleetManager F × W
  unfolding token_for load_or_claim started
  claim_slot i delay m w =
      let path = h.state_file m.cfg.state_dir i in
      let (token, p, w1) = token_for h path m.tokens w in
      let (creds, w2) = load_or_claim h.host path m.cfg.control_url token m.ca_file w1 in
      elim creds [
        | err e ↦ (record m { tokens = p }, w2)
        | ok c ↦ (started i delay c (record m { tokens = p }), w2)
      ]

  unfoldable pub start_slot : ℕ → ℕ → FleetManager F → W → FleetManager F × W
  unfolding claim_slot started
  start_slot i delay m w = elim (slot_at i m.devices).dev [
    | none ↦ claim_slot i delay m w
    | some d ↦ (started i delay d.creds m, w)
  ]

  -- The workers of one call, which claim for different slots; `k` counts them.
  unfoldable pub start_all : ℕ → ℕ → List ℕ → FleetManager F → W → FleetManager F × W
  unfolding start_slot
  start_all gap k [] m w = (m, w)
  start_all gap k (i ∷ is) m w =
      let (m1, w1) = start_slot i (k * gap) m w in start_all gap (suc k) is m1 w1

  -- Scale, while no other call of it runs.
  unfoldable pub scale : ℤ → FleetManager F → W → FleetManager F × W
  unfolding stop_all start_all stagger
  scale n m w =
      let target = clamp n in
      let devices = grow target m.devices in
      let m1 = record m { devices = devices; target = target } in
      let starts = to_start target 0 devices in
      let m2 = stop_all (to_stop target 0 devices) m1 in
      start_all (stagger m.cfg.ramp_window (length starts)) 0 starts m2 w
