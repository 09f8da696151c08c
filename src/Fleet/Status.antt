-- ===== src/Fleet/Status.antt =====
-- Status, Partition and UpdateRuntimeConfig of cmd/fleet/manager.go. The indices of the slots stand for the
-- pointers to their devices.
use sense_grid.Common.{
  ℕ, suc, ◌+◌, ◌≡◌, inl, inr, Bool, false, ◌&&◌, not, Option, none, some, List, [], ◌∷◌, ◌++◌,
  arith, if◌then◌else◌, Text, length, length-append, Option-cases, take, set,
}
use sense_grid.Fleet.Runtime.{RuntimeConfig, ConfigPatch, apply}
use sense_grid.Fleet.Tokens.{remaining}
use sense_grid.Fleet.Manager.{Dev, DeviceSlot, FleetManager, FleetHost, slot_at}

pub record DeviceStatus : Type 0 where
  pub device_id : Text
  pub connected : Bool
  pub partitioned : Bool
  pub seq : ℕ

pub record FleetStatus (F : Type 0) : Type 0 where
  pub target : ℕ
  pub running : ℕ
  pub connected : ℕ
  pub partitioned : ℕ
  pub claimed_total : ℕ
  pub tokens_remaining : ℕ
  pub published_total : ℕ
  pub publish_errors_total : ℕ
  pub malformed_sent_total : ℕ
  pub anomalies_sent_total : ℕ
  pub reconnects_total : ℕ
  pub runtime_config : RuntimeConfig F
  pub devices : List DeviceStatus

abbrev pub listing : Dev → DeviceStatus
listing d = record {
  device_id = d.creds.device_id;
  connected = d.stats.connected;
  partitioned = d.stats.partitioned;
  seq = d.stats.last_seq;
}

abbrev pub one_if : Bool → ℕ
one_if b = if b then 1 else 0

-- `slot.running && slot.dev != nil && !slot.dev.stats.partitioned.Load()`.
abbrev pub is_candidate : DeviceSlot → Bool
is_candidate s = elim s.dev [ none ↦ false | some d ↦ s.running && not d.stats.partitioned ]

abbrev pub candidates : ℕ → List DeviceSlot → List ℕ
candidates i [] = []
candidates i (s ∷ ss) = if is_candidate s then i ∷ candidates (suc i) ss else candidates (suc i) ss

module _ {F : Type 0} where
  abbrev pub no_counts : FleetManager F → FleetStatus F
  no_counts m = record {
    target = m.target;
    running = 0;
    connected = 0;
    partitioned = 0;
    claimed_total = 0;
    tokens_remaining = remaining m.tokens;
    published_total = 0;
    publish_errors_total = 0;
    malformed_sent_total = 0;
    anomalies_sent_total = 0;
    reconnects_total = 0;
    runtime_config = m.rt_cfg;
    devices = [];
  }

  -- The body of the loop of Status for a slot with a device.
  unfoldable pub count_slot : Bool → Dev → FleetStatus F → FleetStatus F
  count_slot running d st = record st {
    claimed_total = st.claimed_total + 1;
    running = st.running + one_if running;
    connected = st.connected + one_if d.stats.connected;
    partitioned = st.partitioned + one_if d.stats.partitioned;
    published_total = st.published_total + d.stats.published;
    publish_errors_total = st.publish_errors_total + d.stats.publish_errors;
    malformed_sent_total = st.malformed_sent_total + d.stats.malformed_sent;
    anomalies_sent_total = st.anomalies_sent_total + d.stats.anomalies_sent;
    reconnects_total = st.reconnects_total + d.stats.reconnects;
    devices = st.devices ++ listing d ∷ [];
  }

  unfoldable pub count_slots : List DeviceSlot → FleetStatus F → FleetStatus F
  unfolding count_slot
  count_slots [] st = st
  count_slots (s ∷ ss) st =
      count_slots ss (elim s.dev [ none ↦ st | some d ↦ count_slot s.running d st ])

  unfoldable pub status : FleetManager F → FleetStatus F
  unfolding count_slots remaining
  status m = count_slots m.devices (no_counts m)

  unfoldable pub update_runtime_config :
      ConfigPatch F → FleetManager F → RuntimeConfig F × FleetManager F
  update_runtime_config patch m =
      let next = apply patch m.rt_cfg in (next, record m { rt_cfg = next })

  -- The send that does not block: the id, when the channel was empty.
  unfoldable pub send_partition : ℕ → ℕ → FleetManager F → Option Text × FleetManager F
  send_partition duration i m =
      let s = slot_at i m.devices in
      elim s.dev [
        | none ↦ (none, m)
        | some d ↦ elim d.partition_ch [
          | some t ↦ (none, m)
          | none ↦
              let sent = record s { dev = some (record d { partition_ch = some duration }) } in
              (some d.creds.device_id, record m { devices = set m.devices i sent })
        ]
      ]

  unfoldable pub send_all : ℕ → List ℕ → FleetManager F → List Text × FleetManager F
  unfolding send_partition
  send_all duration [] m = ([], m)
  send_all duration (i ∷ is) m =
      let (id, m1) = send_partition duration i m in
      let (ids, m2) = send_all duration is m1 in (elim id [ none ↦ ids | some t ↦ t ∷ ids ], m2)

  -- Partition for a count that is not negative.
  unfoldable pub partition :
      {W : Type 0} → FleetHost W → ℕ → ℕ → FleetManager F → W → List Text × FleetManager F × W
  unfolding send_all
  partition h count duration m w =
      let (picked, w1) = h.shuffle (candidates 0 m.devices) w in
      let (ids, m1) = send_all duration (take count picked) m in (ids, m1, w1)

-- The total of a measure over the devices of the slots, and the devices that were claimed.
abbrev pub total : (Bool → Dev → ℕ) → List DeviceSlot → ℕ
total f [] = 0
total f (s ∷ ss) = elim s.dev [ none ↦ total f ss | some d ↦ f s.running d + total f ss ]

-- What Status must say of a fleet.
pub record IsTally {F : Type 0} (ss : List DeviceSlot) (before st : FleetStatus F) : Type 0 where
  pub claimed : st.claimed_total ≡ before.claimed_total + total (λ r d. 1) ss
  pub running : st.running ≡ before.running + total (λ r d. one_if r) ss
  pub connected : st.connected ≡ before.connected + total (λ r d. one_if d.stats.connected) ss
  pub partitioned :
      st.partitioned ≡ before.partitioned + total (λ r d. one_if d.stats.partitioned) ss
  pub published : st.published_total ≡ before.published_total + total (λ r d. d.stats.published) ss
  pub errors :
      st.publish_errors_total
      ≡ before.publish_errors_total + total (λ r d. d.stats.publish_errors) ss
  pub listed : length st.devices ≡ length before.devices + total (λ r d. 1) ss

module _ {F : Type 0} where
  count_slots-IsTally :
      (ss : List DeviceSlot) (st : FleetStatus F) → IsTally ss st (count_slots ss st)
  unfolding count_slots count_slot
  count_slots-IsTally [] st = record {
    claimed = omega arith;
    running = omega arith;
    connected = omega arith;
    partitioned = omega arith;
    published = omega arith;
    errors = omega arith;
    listed = omega arith;
  }
  count_slots-IsTally (s ∷ ss) st = elim (Option-cases s.dev) [
    | inl e ↦
        let t = count_slots-IsTally ss st in
        rw (e, count_slots)
          (record {
            claimed = t.claimed;
            running = t.running;
            connected = t.connected;
            partitioned = t.partitioned;
            published = t.published;
            errors = t.errors;
            listed = t.listed;
          })
    | inr (d, e) ↦
        let t = count_slots-IsTally ss (count_slot s.running d st) in
        rw (e, count_slots)
          (record {
            claimed = omega (arith, t.claimed);
            running = omega (arith, t.running);
            connected = omega (arith, t.connected);
            partitioned = omega (arith, t.partitioned);
            published = omega (arith, t.published);
            errors = omega (arith, t.errors);
            listed = omega (arith, t.listed, length-append st.devices (listing d ∷ []));
          })
  ]

  -- Status counts each slot that has a device once: how many there are, run, are connected and are
  -- partitioned, and what all of them published and failed to publish. It lists as many
  -- devices as it counts.
  pub status-IsTally : (m : FleetManager F) → IsTally m.devices (no_counts m) (status m)
  unfolding status
  status-IsTally m = count_slots-IsTally m.devices (no_counts m)
