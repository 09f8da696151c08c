-- ===== src/Device/Validity.antt =====
-- What applyPartial lets through.
use sense_grid.Common.{
  ◌≡◌, ◌⊎◌, refl, sym, ap, subst, ◌∙◌, inl, inr, true, false, ◌&&◌, ◌||◌, Option, none, some, List,
  [], ◌∷◌, arith, if◌then◌else◌, ◌==◌, text_Eq, text_eq_iff, Text, contains, contains-append, All,
  All-append, Result, ok, >>=-ok, ℤ, pos, ltb_ℤ, ltb, of_milliseconds, is_zero_ℤ, Float, Bool-cases,
}
use sense_grid.Shadow.Types.{Desired, reporting_continuous, reporting_batched}
use sense_grid.Device.Config.{
  AppliedConfig, Invalid, add_key, collect_sensors, apply_rate, apply_sensors, apply_batch_size,
  apply_flush_interval, apply_mode, check_batched, apply_partial,
}

abbrev pub IsKnown : List Text → Text → Type 0
IsKnown known s = contains s known ≡ true

-- The last number of milliseconds that a time.Duration can hold.
abbrev pub max_milliseconds : ℤ
max_milliseconds = pos 9223372036854

-- The interval is a positive number of milliseconds, and its time.Duration is positive too unless the
-- number is above that bound; the sensors are known, and the mode is one of the two, with a bound.
pub record IsValid {F : Type 0} (known : List Text) (c : AppliedConfig F) : Type 0 where
  pub interval : ltb_ℤ (pos 0) c.sample_interval_ms ≡ true
  pub period :
      (ltb_ℤ max_milliseconds c.sample_interval_ms
        || ltb_ℤ (pos 0) (of_milliseconds c.sample_interval_ms))
      ≡ true
  pub sensors : All (IsKnown known) c.enabled_sensors
  pub batch : ltb_ℤ c.batch_size (pos 0) ≡ false
  pub flush : ltb_ℤ c.flush_interval_ms (pos 0) ≡ false
  pub mode : (c.mode ≡ reporting_continuous) ⊎ (c.mode ≡ reporting_batched)
  pub bounded :
      (c.mode == reporting_batched && (is_zero_ℤ c.batch_size && is_zero_ℤ c.flush_interval_ms))
      ≡ false

pub of_milliseconds-positive :
    (i : ℤ)
    → ltb_ℤ (pos 0) i ≡ true
    → (ltb_ℤ max_milliseconds i || ltb_ℤ (pos 0) (of_milliseconds i)) ≡ true
of_milliseconds-positive (pos n) h = elim (Bool-cases (ltb 9223372036854 n)) [
  | inl above ↦ rw above refl
  | inr below ↦ ground arith
]
of_milliseconds-positive (ℤ.negsuc n) h = absurd (cc h)

-- A field that the desired configuration sets is taken, and any other is kept.
abbrev pub taken : {A : Type 0} → Option A → A → A
taken none a = a
taken (some b) a = b

pub record Takes {F : Type 0} (d : Desired F) (current next : AppliedConfig F) : Type 0 where
  pub desired : next.desired ≡ d
  pub interval : d.sample_rate_hz ≡ none → next.sample_interval_ms ≡ current.sample_interval_ms
  pub sensors_kept : d.enabled_sensors ≡ none → next.enabled_sensors ≡ current.enabled_sensors
  pub sensors_taken :
      (ss : List Text) (s : Text)
      → d.enabled_sensors ≡ some ss
      → contains s next.enabled_sensors ≡ contains s ss
  pub batch : next.batch_size ≡ taken d.batch_size current.batch_size
  pub flush : next.flush_interval_ms ≡ taken d.flush_interval_ms current.flush_interval_ms
  pub mode : next.mode ≡ taken d.reporting_mode current.mode

contains-add_key :
    (x s : Text) (set : List Text) → contains x (add_key s set) ≡ (contains x set || s == x)
contains-add_key x s set = elim (Bool-cases (contains s set)) [
  | inl old ↦ rw old (elim (Bool-cases (s == x)) [
    | inl same ↦
        let e : s ≡ x = (text_eq_iff s x).0 same in
        rw same (ap (λ y. contains y set) (sym e) ∙ ground arith)
    | inr other ↦ ground arith
  ])
  | inr new ↦ rw new (ground (arith, contains-append x set (s ∷ [])))
]

collect_sensors-ok :
    {F : Type 0}
    → (known ss set next : List Text)
    → ◌≡◌ {A = Result (Invalid F) (List Text)} (collect_sensors known ss set) (ok next)
    → All (IsKnown known) set
    → All (IsKnown known) next × ((x : Text) → contains x next ≡ (contains x set || contains x ss))
unfolding collect_sensors
collect_sensors-ok known [] set next h a =
    let e : set ≡ next = ground arith in
    (subst (All (IsKnown known)) e a, λ x. ground (arith, ap (contains x) e))
collect_sensors-ok {F} known (s ∷ ss) set next h a = elim (Bool-cases (contains s known)) [
  | inr unknown ↦ ground arith
  | inl found ↦
      let (b, e) =
        collect_sensors-ok {F = F} known ss (add_key s set) next (ground arith) (added found) in
      (b, λ x. ground (arith, e x, contains-add_key x s set))
]
  where
    added : contains s known ≡ true → All (IsKnown known) (add_key s set)
    added found = elim (Bool-cases (contains s set)) [
      | inl old ↦ rw old a
      | inr new ↦ rw new (All-append (IsKnown known) set (s ∷ []) a (found, tt))
    ]

module _ {F : Type 0} (fl : Float F) where
  apply_rate-ok :
      (o : Option F) (c r : AppliedConfig F)
      → apply_rate fl o c ≡ ok r
      → (i : ℤ) × (r ≡ record c { sample_interval_ms = i })
        × (o ≡ none → i ≡ c.sample_interval_ms)
        × (ltb_ℤ (pos 0) c.sample_interval_ms ≡ true → ltb_ℤ (pos 0) i ≡ true)
  unfolding apply_rate
  apply_rate-ok none c r h = (c.sample_interval_ms, ground arith, λ e. refl, λ e. e)
  apply_rate-ok (some rate) c r h =
      let interval = fl.to_int (fl.div (fl.of_int 1000) rate) in
      (
        if ltb_ℤ interval (pos 1) then pos 1 else interval,
        ground arith,
        λ e. cc,
        λ e. at_least_one interval,
      )
    where
      at_least_one : (i : ℤ) → ltb_ℤ (pos 0) (if ltb_ℤ i (pos 1) then pos 1 else i) ≡ true
      at_least_one (pos n) = ground arith
      at_least_one (ℤ.negsuc n) = refl

  apply_sensors-ok :
      (known : List Text) (o : Option (List Text)) (c r : AppliedConfig F)
      → apply_sensors fl known o c ≡ ok r
      → (set : List Text) × (r ≡ record c { enabled_sensors = set })
        × (o ≡ none → set ≡ c.enabled_sensors)
        × (All (IsKnown known) c.enabled_sensors → All (IsKnown known) set)
        × ((ss : List Text) (x : Text) → o ≡ some ss → contains x set ≡ contains x ss)
  unfolding apply_sensors
  apply_sensors-ok known none c r h =
      (c.enabled_sensors, ground arith, λ e. refl, λ a. a, λ ss x e. cc)
  apply_sensors-ok known (some []) c r h = ground arith
  apply_sensors-ok known (some (s ∷ ss)) c r h =
      let (set, found, e) = >>=-ok (collect_sensors known (s ∷ ss) []) _ r h in
      let (a, same) = collect_sensors-ok known (s ∷ ss) [] set found tt in
      (set, ground arith, λ e. cc, λ _. a, λ ts x e'. same x ∙ ground arith)

  apply_batch_size-ok :
      (o : Option ℤ) (c r : AppliedConfig F)
      → apply_batch_size fl o c ≡ ok r
      → (r ≡ record c { batch_size = taken o c.batch_size })
        × (ltb_ℤ c.batch_size (pos 0) ≡ false → ltb_ℤ (taken o c.batch_size) (pos 0) ≡ false)
  unfolding apply_batch_size
  apply_batch_size-ok none c r h = (ground arith, λ e. e)
  apply_batch_size-ok (some (pos n)) c r h = (ground arith, λ e. ground arith)
  apply_batch_size-ok (some (ℤ.negsuc n)) c r h = ground arith

  apply_flush_interval-ok :
      (o : Option ℤ) (c r : AppliedConfig F)
      → apply_flush_interval fl o c ≡ ok r
      → (r ≡ record c { flush_interval_ms = taken o c.flush_interval_ms })
        × (ltb_ℤ c.flush_interval_ms (pos 0) ≡ false
            → ltb_ℤ (taken o c.flush_interval_ms) (pos 0) ≡ false)
  unfolding apply_flush_interval
  apply_flush_interval-ok none c r h = (ground arith, λ e. e)
  apply_flush_interval-ok (some (pos n)) c r h = (ground arith, λ e. ground arith)
  apply_flush_interval-ok (some (ℤ.negsuc n)) c r h = ground arith

  apply_mode-ok :
      (o : Option Text) (c r : AppliedConfig F)
      → apply_mode fl o c ≡ ok r
      → (r ≡ record c { mode = taken o c.mode })
        × ((c.mode ≡ reporting_continuous) ⊎ (c.mode ≡ reporting_batched)
            → (taken o c.mode ≡ reporting_continuous) ⊎ (taken o c.mode ≡ reporting_batched))
  unfolding apply_mode
  apply_mode-ok none c r h = (ground arith, λ e. e)
  apply_mode-ok (some m) c r h = elim (Bool-cases (m == reporting_continuous)) [
    | inl a ↦ (ground arith, λ e. inl ((text_eq_iff m reporting_continuous).0 a))
    | inr a ↦ elim (Bool-cases (m == reporting_batched)) [
      | inl b ↦ (ground arith, λ e. inr ((text_eq_iff m reporting_batched).0 b))
      | inr b ↦ ground arith
    ]
  ]

  check_batched-ok :
      (c r : AppliedConfig F)
      → check_batched fl c ≡ ok r
      → (r ≡ c)
        × ((c.mode == reporting_batched
              && (is_zero_ℤ c.batch_size && is_zero_ℤ c.flush_interval_ms))
            ≡ false)
  unfolding check_batched
  check_batched-ok c r h = ground arith

  apply_partial-ok :
      (known : List Text) (c r : AppliedConfig F) (d : Desired F)
      → apply_partial fl known c d ≡ ok r
      → Takes d c r × (IsValid known c → IsValid known r)
  unfolding apply_partial
  apply_partial-ok known c r d h =
      let (c1, h1, k1) = >>=-ok (apply_rate fl d.sample_rate_hz (record c { desired = d })) _ r h in
      let (c2, h2, k2) = >>=-ok (apply_sensors fl known d.enabled_sensors c1) _ r k1 in
      let (c3, h3, k3) = >>=-ok (apply_batch_size fl d.batch_size c2) _ r k2 in
      let (c4, h4, k4) = >>=-ok (apply_flush_interval fl d.flush_interval_ms c3) _ r k3 in
      let (c5, h5, k5) = >>=-ok (apply_mode fl d.reporting_mode c4) _ r k4 in
      let (i, e1, same1, v1) = apply_rate-ok d.sample_rate_hz (record c { desired = d }) c1 h1 in
      let (set, e2, same2, v2, same3) = apply_sensors-ok known d.enabled_sensors c1 c2 h2 in
      let (e3, v3) = apply_batch_size-ok d.batch_size c2 c3 h3 in
      let (e4, v4) = apply_flush_interval-ok d.flush_interval_ms c3 c4 h4 in
      let (e5, v5) = apply_mode-ok d.reporting_mode c4 c5 h5 in
      let (e6, v6) = check_batched-ok c5 r k5 in
      let positive : IsValid known c → ltb_ℤ (pos 0) r.sample_interval_ms ≡ true =
        λ v. ground (arith, v.interval) in
      let sensors_eq : set ≡ r.enabled_sensors = ground arith in
      let kept_eq : c.enabled_sensors ≡ c1.enabled_sensors = ground arith in
      (
        record {
          desired = ground arith;
          interval = λ e. ground arith;
          sensors_kept = λ e. ground arith;
          sensors_taken = λ ss s e. ground (arith, same3 ss s e);
          batch = ground arith;
          flush = ground arith;
          mode = ground arith;
        },
        λ v. record {
          interval = positive v;
          period = of_milliseconds-positive r.sample_interval_ms (positive v);
          sensors =
              subst (All (IsKnown known)) sensors_eq
                (v2 (subst (All (IsKnown known)) kept_eq v.sensors));
          batch = ground arith;
          flush = ground arith;
          mode = ground arith;
          bounded = ground arith;
        },
      )

  -- Where applyPartial answers no error, the new configuration keeps the interval and the sensors of the
  -- old one unless the desired configuration sets them, has exactly the sensors that it names, and takes
  -- its batch size, flush interval and mode where they are set and keeps them where not.
  pub apply_partial-Takes :
      (known : List Text) (c r : AppliedConfig F) (d : Desired F)
      → apply_partial fl known c d ≡ ok r
      → Takes d c r
  apply_partial-Takes known c r d h = (apply_partial-ok known c r d h).0

  pub apply_partial-IsValid :
      (known : List Text) (c r : AppliedConfig F) (d : Desired F)
      → apply_partial fl known c d ≡ ok r
      → IsValid known c
      → IsValid known r
  apply_partial-IsValid known c r d h = (apply_partial-ok known c r d h).1
