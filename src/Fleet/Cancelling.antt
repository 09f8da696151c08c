-- ===== src/Fleet/Cancelling.antt =====
-- The runs that Scale cancels, and those that it starts.
use sense_grid.Common.{
  ℕ, suc, ◌*◌, ◌<◌, ◌≡◌, ◌≢◌, refl, sym, ap, ==_refl, nat_Eq, ◌∙◌, inl, inr, Bool, true, false,
  ◌||◌, none, some, List, [], ◌∷◌, arith, nat_eq, nat_Eq, length, length-set, contains, Option,
  Result-cases, Option-cases, Bool-cases,
}
use sense_grid.Fleet.Provisioning.{Credentials, load_or_claim}
use sense_grid.Fleet.Manager.{
  Run, DeviceSlot, FleetManager, FleetHost, slot_at, stop_slot, stop_all, cancel_run, started,
  token_for, claim_slot, start_slot, start_all,
}
use sense_grid.Fleet.Indices.{slot_at-other, slot_at-set, Inside}
use sense_grid.Fleet.Starting.{halted}

-- Is there a run of this context?
unfoldable pub is_live : ℕ → List Run → Bool
is_live k [] = false
is_live k (r ∷ rs) = nat_eq r.context k || is_live k rs

cancel_run-own : (k : ℕ) (live : List Run) → is_live k (cancel_run (some k) live) ≡ false
unfolding is_live
cancel_run-own k [] = refl
cancel_run-own k (r ∷ rs) = ground (arith, cancel_run-own k rs)

-- A context other than the cancelled one.
cancel_run-other :
    (c : Option ℕ) (k : ℕ) (live : List Run)
    → is_live k live ≡ false
    → is_live k (cancel_run c live) ≡ false
unfolding is_live
cancel_run-other none k live h = h
cancel_run-other (some c) k [] h = refl
cancel_run-other (some c) k (r ∷ rs) h = ground (arith, cancel_run-other (some c) k rs)

cancel_run-keeps :
    (c : Option ℕ) (k : ℕ) (live : List Run)
    → c ≢ some k
    → is_live k live ≡ true
    → is_live k (cancel_run c live) ≡ true
unfolding is_live
cancel_run-keeps none k live other h = h
cancel_run-keeps (some c) k [] other h = h
cancel_run-keeps (some c) k (r ∷ rs) other h =
    let differs : c ≢ k = λ e. other (ap some e) in
    ground (arith, differs, cancel_run-keeps (some c) k rs other)

module _ {F : Type 0} where
  stop_all-dead :
      (is : List ℕ) (m : FleetManager F) (k : ℕ)
      → is_live k m.live ≡ false
      → is_live k (stop_all is m).live ≡ false
  unfolding stop_all stop_slot
  stop_all-dead [] m k h = h
  stop_all-dead (i ∷ is) m k h =
      stop_all-dead is (stop_slot i m) k (cancel_run-other (slot_at i m.devices).cancel k m.live h)

  pub stop_all-cancels :
      (is : List ℕ) (m : FleetManager F) (j k n : ℕ)
      → length m.devices ≡ n
      → Inside n is
      → contains j is ≡ true
      → (slot_at j m.devices).cancel ≡ some k
      → is_live k (stop_all is m).live ≡ false
  unfolding stop_all stop_slot
  stop_all-cancels [] m j k n l a c e = ground arith
  stop_all-cancels (i ∷ is) m j k n l (b, a) c e =
      let s = halted (slot_at i m.devices) in
      elim (Bool-cases (nat_eq i j)) [
        | inl here ↦
            let same : i ≡ j = ground arith in
            let own : (slot_at i m.devices).cancel ≡ some k =
              ap (λ (x : ℕ). (slot_at x m.devices).cancel) same ∙ e in
            stop_all-dead is (stop_slot i m) k
              (ap (λ (x : Option ℕ). is_live k (cancel_run x m.live)) own ∙ cancel_run-own k m.live)
        | inr other ↦
            stop_all-cancels is (stop_slot i m) j k n (length-set m.devices i s ∙ l) a
              (ground arith)
              (ap (λ (x : DeviceSlot). x.cancel)
                  (slot_at-other m.devices i j s (omega (arith, l, b)) other)
                ∙ e)
      ]

  pub stop_slot-cancel :
      (i j : ℕ) (m : FleetManager F)
      → i < length m.devices
      → (slot_at j (stop_slot i m).devices).cancel ≡ (slot_at j m.devices).cancel
  unfolding stop_slot
  stop_slot-cancel i j m l = elim (Bool-cases (nat_eq i j)) [
    | inl here ↦
        let same : i ≡ j = ground arith in
        ap (λ (x : DeviceSlot). x.cancel)
          (slot_at-set m.devices i j (halted (slot_at i m.devices)) l)
        ∙ rw here (ap (λ (x : ℕ). (slot_at x m.devices).cancel) same)
    | inr other ↦
        ap (λ (x : DeviceSlot). x.cancel)
          (slot_at-other m.devices i j (halted (slot_at i m.devices)) l other)
  ]

  -- A run whose slot is not among those that are stopped goes on.
  pub stop_all-keeps :
      (is : List ℕ) (m : FleetManager F) (k n : ℕ)
      → length m.devices ≡ n
      → Inside n is
      → ((i : ℕ) → contains i is ≡ true → (slot_at i m.devices).cancel ≢ some k)
      → is_live k m.live ≡ true
      → is_live k (stop_all is m).live ≡ true
  unfolding stop_all stop_slot
  stop_all-keeps [] m k n l a own h = h
  stop_all-keeps (i ∷ is) m k n l (b, a) own h =
      let here : i < length m.devices = omega (arith, l, b) in
      stop_all-keeps is (stop_slot i m) k n
        (length-set m.devices i (halted (slot_at i m.devices)) ∙ l) a
        (λ j e owned. own j (ground (arith, e)) (sym (stop_slot-cancel i j m here) ∙ owned))
        (cancel_run-keeps (slot_at i m.devices).cancel k m.live (own i (ground (arith, ==_refl i)))
          h)

  pub stop_all-next :
      (is : List ℕ) (m : FleetManager F) → (stop_all is m).next_context ≡ m.next_context
  unfolding stop_all stop_slot
  stop_all-next [] m = refl
  stop_all-next (i ∷ is) m = stop_all-next is (stop_slot i m)

  started-dead :
      (i delay : ℕ) (c : Credentials) (m : FleetManager F) (k : ℕ)
      → k < m.next_context
      → is_live k m.live ≡ false
      → (is_live k (started i delay c m).live ≡ false) × (k < (started i delay c m).next_context)
  unfolding started is_live
  started-dead i delay c m k l h = (ground arith, omega arith)

module _ {F W : Type 0} (h : FleetHost W) where
  start_slot-dead :
      (i delay : ℕ) (m : FleetManager F) (w : W) (k : ℕ)
      → k < m.next_context
      → is_live k m.live ≡ false
      → (is_live k (start_slot h i delay m w).0.live ≡ false)
        × (k < (start_slot h i delay m w).0.next_context)
  unfolding start_slot claim_slot
  start_slot-dead i delay m w k l d = elim (Option-cases (slot_at i m.devices).dev) [
    | inr (x, e) ↦ rw (e, start_slot) (started-dead i delay x.creds m k l d)
    | inl e ↦
        let path = h.state_file m.cfg.state_dir i in
        let (token, p, w1) = token_for h path m.tokens w in
        elim (Result-cases (load_or_claim h.host path m.cfg.control_url token m.ca_file w1).0) [
          | inl (x, failed) ↦ rw (e, start_slot) (rw (failed, claim_slot) (d, l))
          | inr (c, claimed) ↦
              rw (e, start_slot)
                (rw (claimed, claim_slot) (started-dead i delay c (record m { tokens = p }) k l d))
        ]
  ]

  start_slot-keeps :
      (i delay : ℕ) (m : FleetManager F) (w : W) (k : ℕ)
      → is_live k m.live ≡ true
      → is_live k (start_slot h i delay m w).0.live ≡ true
  unfolding start_slot claim_slot started is_live
  start_slot-keeps i delay m w k l = elim (Option-cases (slot_at i m.devices).dev) [
    | inr (x, e) ↦ rw (e, start_slot) (ground arith)
    | inl e ↦
        let path = h.state_file m.cfg.state_dir i in
        let (token, p, w1) = token_for h path m.tokens w in
        elim (Result-cases (load_or_claim h.host path m.cfg.control_url token m.ca_file w1).0) [
          | inl (x, failed) ↦ rw (e, start_slot) (rw (failed, claim_slot) l)
          | inr (c, claimed) ↦ rw (e, start_slot) (rw (claimed, claim_slot) (ground arith))
        ]
  ]

  pub start_all-keeps :
      (gap k : ℕ) (is : List ℕ) (m : FleetManager F) (w : W) (c : ℕ)
      → is_live c m.live ≡ true
      → is_live c (start_all h gap k is m w).0.live ≡ true
  unfolding start_all
  start_all-keeps gap k [] m w c d = d
  start_all-keeps gap k (i ∷ is) m w c d =
      let (m1, w1) = start_slot h i (k * gap) m w in
      start_all-keeps gap (suc k) is m1 w1 c (start_slot-keeps i (k * gap) m w c d)

  -- A context that was made before stays cancelled.
  pub start_all-dead :
      (gap k : ℕ) (is : List ℕ) (m : FleetManager F) (w : W) (c : ℕ)
      → c < m.next_context
      → is_live c m.live ≡ false
      → is_live c (start_all h gap k is m w).0.live ≡ false
  unfolding start_all
  start_all-dead gap k [] m w c l d = d
  start_all-dead gap k (i ∷ is) m w c l d =
      let (m1, w1) = start_slot h i (k * gap) m w in
      let (d1, l1) = start_slot-dead i (k * gap) m w c l d in
      start_all-dead gap (suc k) is m1 w1 c l1 d1
