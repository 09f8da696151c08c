-- ===== src/Fleet/Starting.antt =====
-- What stopping and starting makes of the slots.
use sense_grid.Common.{
  ℕ, suc, ◌*◌, ◌<◌, ◌≡◌, refl, sym, ap, subst, ◌∙◌, ◌⊎◌, inl, inr, Bool, true, false, none, some,
  List, [], ◌∷◌, arith, nat_eq, nat_Eq, ==_refl, if◌then◌else◌, length, length-set, contains,
  Result-cases, Option-cases, Bool-cases,
}
use sense_grid.Fleet.Provisioning.{Credentials, load_or_claim}
use sense_grid.Fleet.Manager.{
  Dev, DeviceSlot, FleetManager, FleetHost, slot_at, stop_slot, stop_all, started, token_for,
  claim_slot, start_slot, start_all,
}
use sense_grid.Fleet.Indices.{slot_at-set, slot_at-other, Inside}

abbrev pub has_dev : DeviceSlot → Bool
has_dev s = elim s.dev [ none ↦ false | some d ↦ true ]

-- The credentials of a slot are never given up.
abbrev pub KeepsCreds : DeviceSlot → DeviceSlot → Type 0
KeepsCreds s t = (d : Dev) → s.dev ≡ some d → (e : Dev) × (t.dev ≡ some e) × (e.creds ≡ d.creds)

-- A slot that was to be started: it runs with its old credentials or with new ones, unless it had none
-- and could not get any.
pub record Started (s t : DeviceSlot) : Type 0 where
  pub creds : KeepsCreds s t
  pub running : (t.running ≡ true) ⊎ (t ≡ s)
  pub only_with_dev : t.running ≡ true → (has_dev t ≡ true) ⊎ (t ≡ s)
  pub all_with_dev : has_dev t ≡ true → t.running ≡ true

-- `a.slot.running = false`.
abbrev pub halted : DeviceSlot → DeviceSlot
halted s = record s { running = false }

module _ {F : Type 0} where
  pub stop_all-slots :
      (is : List ℕ) (m : FleetManager F) (n : ℕ)
      → length m.devices ≡ n
      → Inside n is
      → (length (stop_all is m).devices ≡ n)
        × ((j : ℕ)
            → slot_at j (stop_all is m).devices
              ≡ (if contains j is then halted (slot_at j m.devices) else slot_at j m.devices))
  unfolding stop_all stop_slot
  stop_all-slots [] m n l a = (l, λ j. refl)
  stop_all-slots (i ∷ is) m n l (h, a) =
      let s = halted (slot_at i m.devices) in
      let (l', f) = stop_all-slots is (stop_slot i m) n (length-set m.devices i s ∙ l) a in
      let at = λ (j : ℕ). slot_at-set m.devices i j s (omega arith) in
      (
        l',
        λ j. elim (Bool-cases (nat_eq i j)) [
          | inl e ↦
              let same : i ≡ j = ground arith in
              ground (arith, f j, at j, ap (λ k. halted (slot_at k m.devices)) same)
          | inr e ↦ ground (arith, f j, at j)
        ],
      )

  started-Started :
      (i delay : ℕ) (c : Credentials) (m : FleetManager F)
      → ((d : Dev) → (slot_at i m.devices).dev ≡ some d → d.creds ≡ c)
      → i < length m.devices
      → Started (slot_at i m.devices) (slot_at i (started i delay c m).devices)
  unfolding started
  started-Started i delay c m same l =
      rw (slot_at-set m.devices i i _ l, ==_refl i)
        (record {
          creds = λ d e. (_, refl, sym (same d e));
          running = inl refl;
          only_with_dev = λ e. inl refl;
          all_with_dev = λ e. refl;
        })

  started-others :
      (i j delay : ℕ) (c : Credentials) (m : FleetManager F)
      → i < length m.devices
      → nat_eq i j ≡ false
      → slot_at j (started i delay c m).devices ≡ slot_at j m.devices
  unfolding started
  started-others i j delay c m l e = slot_at-other m.devices i j _ l e

  started-length :
      (i delay : ℕ) (c : Credentials) (m : FleetManager F)
      → length (started i delay c m).devices ≡ length m.devices
  unfolding started
  started-length i delay c m = length-set m.devices i _

-- A slot that could not be started stays as it is.
not-Started : (s : DeviceSlot) → s.dev ≡ none → Started s s
not-Started s e = record {
  creds = λ d h. (d, h, refl);
  running = inr refl;
  only_with_dev = λ h. inr refl;
  all_with_dev = λ h. ground arith;
}

Started-trans : (s t u : DeviceSlot) → Started s t → Started t u → Started s u
Started-trans s t u a b = record {
  creds =
      λ d h. let (e, h1, k1) = a.creds d h in let (f, h2, k2) = b.creds e h1 in (f, h2, k2 ∙ k1);
  running = elim b.running [
    | inl r ↦ inl r
    | inr same ↦ elim a.running [
      | inl r ↦ inl (ap (λ x. x.running) same ∙ r)
      | inr again ↦ inr (same ∙ again)
    ]
  ];
  only_with_dev = λ h. elim (b.only_with_dev h) [
    | inl d ↦ inl d
    | inr same ↦ elim (a.only_with_dev (sym (ap (λ x. x.running) same) ∙ h)) [
      | inl d ↦ inl (ap has_dev same ∙ d)
      | inr again ↦ inr (same ∙ again)
    ]
  ];
  all_with_dev = b.all_with_dev;
}

-- What the start of slot `i` does to slot `j`.
abbrev pub AfterStart : ℕ → ℕ → List DeviceSlot → List DeviceSlot → Type 0
AfterStart i j ds es =
    (length es ≡ length ds)
    × (nat_eq i j ≡ false → slot_at j es ≡ slot_at j ds)
    × (nat_eq i j ≡ true → Started (slot_at j ds) (slot_at j es))

module _ {F W : Type 0} (h : FleetHost W) where
  started-AfterStart :
      (i j delay : ℕ) (c : Credentials) (m : FleetManager F)
      → ((d : Dev) → (slot_at i m.devices).dev ≡ some d → d.creds ≡ c)
      → i < length m.devices
      → AfterStart i j m.devices (started i delay c m).devices
  started-AfterStart i j delay c m same l = (
    started-length i delay c m,
    started-others i j delay c m l,
    λ e.
        let here : i ≡ j = ground arith in
        subst (λ k. Started (slot_at k m.devices) (slot_at k (started i delay c m).devices)) here
          (started-Started i delay c m same l),
  )

  pub start_slot-AfterStart :
      (i j delay : ℕ) (m : FleetManager F) (w : W)
      → i < length m.devices
      → AfterStart i j m.devices (start_slot h i delay m w).0.devices
  unfolding start_slot claim_slot
  start_slot-AfterStart i j delay m w l = elim (Option-cases (slot_at i m.devices).dev) [
    | inr (d, e) ↦
        rw (e, start_slot) (started-AfterStart i j delay d.creds m (λ d' e'. ground arith) l)
    | inl e ↦
        let path = h.state_file m.cfg.state_dir i in
        let (token, p, w1) = token_for h path m.tokens w in
        let answer = (load_or_claim h.host path m.cfg.control_url token m.ca_file w1).0 in
        elim (Result-cases answer) [
          | inl (x, failed) ↦
              rw (e, start_slot)
                (rw (failed, claim_slot)
                  (
                    refl,
                    λ n. refl,
                    λ n.
                        let here : i ≡ j = ground arith in
                        not-Started (slot_at j m.devices)
                          (subst (λ k. (slot_at k m.devices).dev ≡ none) here e),
                  ))
          | inr (c, claimed) ↦
              rw (e, start_slot)
                (rw (claimed, claim_slot)
                  (started-AfterStart i j delay c (record m { tokens = p }) (λ d' e'. ground arith)
                    l))
        ]
  ]

  pub start_all-slots :
      (gap k : ℕ) (is : List ℕ) (m : FleetManager F) (w : W) (n : ℕ)
      → length m.devices ≡ n
      → Inside n is
      → (length (start_all h gap k is m w).0.devices ≡ n)
        × ((j : ℕ)
            → (contains j is ≡ false
                → slot_at j (start_all h gap k is m w).0.devices ≡ slot_at j m.devices)
              × (contains j is ≡ true
                  → Started (slot_at j m.devices) (slot_at j (start_all h gap k is m w).0.devices)))
  unfolding start_all
  start_all-slots gap k [] m w n l a = (l, λ j. (λ e. refl, λ e. ground arith))
  start_all-slots gap k (i ∷ is) m w n l (b, a) =
      let (m1, w1) = start_slot h i (k * gap) m w in
      let after = λ (j : ℕ). start_slot-AfterStart i j (k * gap) m w (omega arith) in
      let (l', f) = start_all-slots gap (suc k) is m1 w1 n ((after i).0 ∙ l) a in
      (
        l',
        λ j. (
          λ e. (f j).0 (ground arith) ∙ (after j).1 (ground arith),
          λ e. elim (Bool-cases (nat_eq i j)) [
            | inl here ↦ elim (Bool-cases (contains j is)) [
              | inl again ↦ Started-trans _ _ _ ((after j).2 here) ((f j).1 again)
              | inr once ↦
                  subst (Started (slot_at j m.devices)) (sym ((f j).0 once)) ((after j).2 here)
            ]
            | inr other ↦
                subst (λ s. Started s (slot_at j (start_all h gap (suc k) is m1 w1).0.devices))
                  ((after j).1 other) ((f j).1 (ground arith))
          ],
        ),
      )
