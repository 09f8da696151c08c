-- ===== src/Fleet/Numbering.antt =====
-- The contexts of the slots of cmd/fleet/manager.go.
use sense_grid.Common.{
  ℕ, suc, ◌+◌, ◌*◌, ◌<◌, ◌≡◌, ◌⊎◌, refl, sym, ap, ◌∙◌, inl, inr, true, none, some, List, [], ◌∷◌,
  arith, nat_eq, nat_Eq, length, length-set, Option-cases, Result-cases, Bool-cases, ℤ,
}
use sense_grid.Fleet.Provisioning.{Credentials, load_or_claim}
use sense_grid.Fleet.Manager.{
  DeviceSlot, FleetManager, FleetHost, clamp, grow, to_start, to_stop, slot_at, stop_slot, stop_all,
  started, token_for, claim_slot, start_slot, start_all, stagger, scale,
}
use sense_grid.Fleet.Indices.{
  slot_at-set, slot_at-grow, contains-to_start, contains-to_stop, Inside, contained-Inside,
}
use sense_grid.Fleet.Starting.{halted, stop_all-slots, start_slot-AfterStart}
use sense_grid.Device.Sampler.{no_stats}
use sense_grid.Fleet.Cancelling.{stop_slot-cancel, stop_all-next}

-- Contexts are numbered in the order in which they are made, and no two slots have the same one.
pub record IsNumbered {F : Type 0} (m : FleetManager F) : Type 0 where
  pub made : (j k : ℕ) → (slot_at j m.devices).cancel ≡ some k → k < m.next_context
  pub own :
      (i j k : ℕ)
      → (slot_at i m.devices).cancel ≡ some k
      → (slot_at j m.devices).cancel ≡ some k
      → i ≡ j

module _ {F : Type 0} where
  stop_all-cancel :
      (is : List ℕ) (m : FleetManager F) (j n : ℕ)
      → length m.devices ≡ n
      → Inside n is
      → (slot_at j (stop_all is m).devices).cancel ≡ (slot_at j m.devices).cancel
  unfolding stop_all stop_slot
  stop_all-cancel [] m j n l a = refl
  stop_all-cancel (i ∷ is) m j n l (b, a) =
      stop_all-cancel is (stop_slot i m) j n
        (length-set m.devices i (halted (slot_at i m.devices)) ∙ l) a
      ∙ stop_slot-cancel i j m (omega (arith, l, b))

  -- The same contexts, and the same number for the next.
  IsNumbered-same :
      (m m' : FleetManager F)
      → IsNumbered m
      → ((j : ℕ) → (slot_at j m'.devices).cancel ≡ (slot_at j m.devices).cancel)
      → m'.next_context ≡ m.next_context
      → IsNumbered m'
  IsNumbered-same m m' v same next = record {
    made = λ j k e. omega (arith, next, v.made j k (sym (same j) ∙ e));
    own = λ i j k e f. v.own i j k (sym (same i) ∙ e) (sym (same j) ∙ f);
  }

  started-IsNumbered :
      (i delay : ℕ) (c : Credentials) (m : FleetManager F)
      → i < length m.devices
      → IsNumbered m
      → IsNumbered (started i delay c m)
  unfolding started
  started-IsNumbered i delay c m l v = record { made = made_at; own = own_at }
    where
      new : DeviceSlot
      new = record {
        dev = some (record { creds = c; stats = no_stats; partition_ch = none });
        cancel = some m.next_context;
        running = true;
      }

      here_or_old :
          (j k : ℕ)
          → (slot_at j (started i delay c m).devices).cancel ≡ some k
          → ((i ≡ j) × (k ≡ m.next_context)) ⊎ ((slot_at j m.devices).cancel ≡ some k)
      here_or_old j k e = elim (Bool-cases (nat_eq i j)) [
        | inl here ↦
            let same : i ≡ j = ground arith in
            inl (
              same,
              ground (
                arith,
                rw here at (ap (λ (x : DeviceSlot). x.cancel) (slot_at-set m.devices i j new l)),
                e,
              ),
            )
        | inr other ↦ inr (
            sym (rw other at (ap (λ (x : DeviceSlot). x.cancel) (slot_at-set m.devices i j new l)))
            ∙ e)
      ]

      made_at :
          (j k : ℕ)
          → (slot_at j (started i delay c m).devices).cancel ≡ some k
          → k < m.next_context + 1
      made_at j k e = elim (here_or_old j k e) [
        | inl (same, next) ↦ omega (arith, next)
        | inr old ↦ omega (arith, v.made j k old)
      ]

      own_at :
          (a b k : ℕ)
          → (slot_at a (started i delay c m).devices).cancel ≡ some k
          → (slot_at b (started i delay c m).devices).cancel ≡ some k
          → a ≡ b
      own_at a b k e f = elim (here_or_old a k e) [
        | inl (same, next) ↦ elim (here_or_old b k f) [
          | inl (same', next') ↦ sym same ∙ same'
          | inr old ↦ absurd (omega (arith, next, v.made b k old))
        ]
        | inr old ↦ elim (here_or_old b k f) [
          | inl (same', next') ↦ absurd (omega (arith, next', v.made a k old))
          | inr old' ↦ v.own a b k old old'
        ]
      ]

module _ {F W : Type 0} (h : FleetHost W) where
  start_slot-IsNumbered :
      (i delay : ℕ) (m : FleetManager F) (w : W)
      → i < length m.devices
      → IsNumbered m
      → IsNumbered (start_slot h i delay m w).0
  unfolding start_slot claim_slot
  start_slot-IsNumbered i delay m w l v = elim (Option-cases (slot_at i m.devices).dev) [
    | inr (x, e) ↦ rw (e, start_slot) (started-IsNumbered i delay x.creds m l v)
    | inl e ↦
        let path = h.state_file m.cfg.state_dir i in
        let (token, p, w1) = token_for h path m.tokens w in
        let m' : FleetManager F = record m { tokens = p } in
        let v' : IsNumbered m' = record { made = v.made; own = v.own } in
        elim (Result-cases (load_or_claim h.host path m.cfg.control_url token m.ca_file w1).0) [
          | inl (x, failed) ↦ rw (e, start_slot) (rw (failed, claim_slot) v')
          | inr (c, claimed) ↦
              rw (e, start_slot) (rw (claimed, claim_slot) (started-IsNumbered i delay c m' l v'))
        ]
  ]

  start_all-IsNumbered :
      (gap k : ℕ) (is : List ℕ) (m : FleetManager F) (w : W) (n : ℕ)
      → length m.devices ≡ n
      → Inside n is
      → IsNumbered m
      → IsNumbered (start_all h gap k is m w).0
  unfolding start_all
  start_all-IsNumbered gap k [] m w n l a v = v
  start_all-IsNumbered gap k (i ∷ is) m w n l (b, a) v =
      let (m1, w1) = start_slot h i (k * gap) m w in
      let here : i < length m.devices = omega (arith, l, b) in
      start_all-IsNumbered gap (suc k) is m1 w1 n
        ((start_slot-AfterStart h i i (k * gap) m w here).0 ∙ l) a
        (start_slot-IsNumbered i (k * gap) m w here v)

  pub scale-IsNumbered :
      (n : ℤ) (m : FleetManager F) (w : W) → IsNumbered m → IsNumbered (scale h n m w).0
  unfolding scale
  scale-IsNumbered n m w v =
      let target = clamp n in
      let ds = grow target m.devices in
      let m1 = record m { devices = ds; target = target } in
      let starts = to_start target 0 ds in
      let stops = to_stop target 0 ds in
      let stopping =
        contained-Inside (length ds) stops
          (λ j e. ground (arith, contains-to_stop target 0 j j ds (omega arith))) in
      let starting =
        contained-Inside (length ds) starts
          (λ j e. ground (arith, contains-to_start target 0 j j ds (omega arith))) in
      let (size, _) = stop_all-slots stops m1 (length ds) refl stopping in
      start_all-IsNumbered (stagger m.cfg.ramp_window (length starts)) 0 starts (stop_all stops m1)
        w (length ds) size starting
        (IsNumbered-same m (stop_all stops m1) v
          (λ j.
            stop_all-cancel stops m1 j (length ds) refl stopping
            ∙ ap (λ (s : DeviceSlot). s.cancel) (slot_at-grow target j m.devices))
          (stop_all-next stops m1))
