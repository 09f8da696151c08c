-- ===== src/Fleet/Scaling.antt =====
-- When Scale has run, what became of each slot.
use sense_grid.Common.{
  some, List, ℕ, ◌≡◌, refl, sym, ap, subst, ◌∙◌, inl, inr, Bool, true, false, ◌&&◌, ◌||◌, not,
  arith, ltb, nat_Eq, if◌then◌else◌, length, contains, ℤ, Bool-cases,
}
use sense_grid.Fleet.Cancelling.{is_live}
use sense_grid.Fleet.Manager.{
  Run, DeviceSlot, FleetManager, FleetHost, clamp, grow, to_start, to_stop, slot_at, stop_all,
  stagger, scale,
}
use sense_grid.Fleet.Indices.{
  slot_at-inside, slot_at-grow, length-grow, contains-to_start, contains-to_stop, contained-Inside,
}
use sense_grid.Fleet.Starting.{
  has_dev, KeepsCreds, Started, halted, stop_all-slots, start_all-slots,
}

-- What Scale makes of one slot: `wanted` says whether its index is below the target.
pub record Scaled (wanted : Bool) (s t : DeviceSlot) : Type 0 where
  pub creds : KeepsCreds s t
  pub unwanted : wanted ≡ false → t ≡ halted s
  pub untouched : wanted ≡ true → s.running ≡ true → t ≡ s
  pub wanted_runs : wanted ≡ true → s.running ≡ false → t.running ≡ has_dev t

-- A run that is not wanted any more is cancelled, and one that is wanted goes on.
pub record Cancelled (wanted : Bool) (s : DeviceSlot) (before after : List Run) : Type 0 where
  pub stopped :
      (k : ℕ) → wanted ≡ false → s.running ≡ true → s.cancel ≡ some k → is_live k after ≡ false
  pub goes_on :
      (k : ℕ) → wanted ≡ true → s.cancel ≡ some k → is_live k before ≡ true → is_live k after ≡ true

Started-runs : (s t : DeviceSlot) → Started s t → s.running ≡ false → t.running ≡ has_dev t
Started-runs s t c idle = elim (Bool-cases t.running) [
  | inl e ↦ elim (c.only_with_dev e) [
    | inl d ↦ e ∙ sym d
    | inr same ↦ ground (arith, ap (λ x. x.running) same)
  ]
  | inr e ↦ elim (Bool-cases (has_dev t)) [
    | inl d ↦ ground (arith, c.all_with_dev d)
    | inr d ↦ e ∙ sym d
  ]
]

-- A slot is stopped or started by its target and by whether it runs.
Scaled-slot :
    (wanted inside stops starts : Bool) (s u t : DeviceSlot)
    → stops ≡ (inside && (not wanted && s.running))
    → starts ≡ (inside && (wanted && not s.running))
    → (wanted ≡ true → inside ≡ true)
    → (s.running ≡ true → inside ≡ true)
    → u ≡ (if stops then halted s else s)
    → (starts ≡ false → t ≡ u)
    → (starts ≡ true → Started u t)
    → Scaled wanted s t
Scaled-slot false inside stops starts s u t e1 e2 i1 i2 e3 keep start =
    let same : t ≡ halted s = ground (arith, keep) in
    record {
      creds = λ d e. (d, ap (λ x. x.dev) same ∙ e, refl);
      unwanted = λ e. same;
      untouched = λ e. ground arith;
      wanted_runs = λ e. ground arith;
    }
Scaled-slot true inside stops starts s u t e1 e2 i1 i2 e3 keep start = elim (Bool-cases s.running) [
  | inl up ↦
      let same : t ≡ s = ground (arith, keep) in
      record {
        creds = λ d e. (d, ap (λ x. x.dev) same ∙ e, refl);
        unwanted = λ e. ground arith;
        untouched = λ e r. same;
        wanted_runs = λ e r. ground arith;
      }
  | inr idle ↦
      let before : u ≡ s = ground arith in
      let c : Started s t = subst (λ x. Started x t) before (start (ground arith)) in
      record {
        creds = c.creds;
        unwanted = λ e. ground arith;
        untouched = λ e r. ground arith;
        wanted_runs = λ e r. Started-runs s t c idle;
      }
]

module _ {F W : Type 0} (h : FleetHost W) where
  pub scale-slots :
      (n : ℤ) (m : FleetManager F) (w : W)
      → ((j : ℕ)
          → ltb j (length (scale h n m w).0.devices)
            ≡ (ltb j (clamp n) || ltb j (length m.devices)))
        × ((j : ℕ)
            → Scaled (ltb j (clamp n)) (slot_at j m.devices) (slot_at j (scale h n m w).0.devices))
  unfolding scale
  scale-slots n m w =
      let target = clamp n in
      let ds = grow target m.devices in
      let m1 = record m { devices = ds; target = target } in
      let starts = to_start target 0 ds in
      let stops = to_stop target 0 ds in
      let m2 = stop_all stops m1 in
      let gap = stagger m.cfg.ramp_window (length starts) in
      let start_at = λ (j : ℕ). contains-to_start target 0 j j ds (omega arith) in
      let stop_at = λ (j : ℕ). contains-to_stop target 0 j j ds (omega arith) in
      let (l2, f2) =
        stop_all-slots stops m1 (length ds) refl
          (contained-Inside (length ds) stops (λ j e. ground (arith, stop_at j))) in
      let (l3, f3) =
        start_all-slots h gap 0 starts m2 w (length ds) l2
          (contained-Inside (length ds) starts (λ j e. ground (arith, start_at j))) in
      (
        λ j. ap (ltb j) l3 ∙ length-grow target j m.devices,
        λ j.
            let grown = slot_at-grow target j m.devices in
            subst (λ s. Scaled (ltb j target) s (slot_at j (scale h n m w).0.devices)) grown
              (Scaled-slot (ltb j target) (ltb j (length ds)) (contains j stops) (contains j starts)
                (slot_at j ds) (slot_at j m2.devices) _ (stop_at j) (start_at j)
                (λ e. length-grow target j m.devices ∙ ground arith) (slot_at-inside ds j) (f2 j)
                (f3 j).0 (f3 j).1),
      )
