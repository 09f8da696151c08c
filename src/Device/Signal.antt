-- ===== src/Device/Signal.antt =====
-- cmd/fleet/signal.go. math/rand is a parameter, a type of generators that each draw advances; the
-- sine and pi stand beside the operations of float64.
use sense_grid.Common.{ℕ, suc, ◌-◌, Bool, true, false, leb, nat_eq, if◌then◌else◌, ℤ, pos, Float}
use sense_grid.Device.Config.{of_ℤ}

pub record Rand (F R : Type 0) : Type 0 where
  pub new_source : ℤ → R
  pub float64 : R → F × R
  pub norm_float64 : R → F × R
  pub intn : ℕ → R → ℕ × R
  pub sin : F → F
  pub pi : F

pub record SensorSignal (F R : Type 0) : Type 0 where
  pub rnd : R
  pub base : F
  pub amplitude : F
  pub period_ms : F
  pub phase : F
  pub drift_per_hour : F
  pub noise_std_dev : F
  pub start_ms : ℕ
  pub step_offset : F

-- `a - b` of two int64 that are not negative.
abbrev pub difference : ℕ → ℕ → ℤ
difference a b = if leb b a then pos (a - b) else ℤ.negsuc (b - suc a)

module _ {F R : Type 0} (fl : Float F) (rd : Rand F R) where
  open fl use {add, sub, mul, div, of_int, lt, nil}

  -- `rate > 0 && rnd.Float64() < rate`, which draws only when the rate is positive.
  unfoldable pub chance : F → R → Bool × R
  chance rate r = let (x, r1) = rd.float64 r in if lt nil rate then (lt x rate, r1) else (false, r)

  unfoldable pub new_sensor_signal : ℤ → F → F → F → F → F → SensorSignal F R
  new_sensor_signal seed base amplitude period_ms drift_per_hour noise_std_dev =
      let (x, r) = rd.float64 (rd.new_source seed) in
      record {
        rnd = r;
        base = base;
        amplitude = amplitude;
        period_ms = period_ms;
        phase = mul (mul x (of_int 2)) rd.pi;
        drift_per_hour = drift_per_hour;
        noise_std_dev = noise_std_dev;
        start_ms = 0;
        step_offset = nil;
      }

  -- The persistent step: `s.stepOffset += (s.rnd.Float64()*2 - 1) * s.amplitude * 0.5`.
  unfoldable pub step_change : F → SensorSignal F R → SensorSignal F R
  unfolding chance
  step_change step_rate s =
      let (steps, r1) = chance step_rate s.rnd in
      let (x, r2) = rd.float64 r1 in
      let by =
        mul (mul (sub (mul x (of_int 2)) (of_int 1)) s.amplitude) (div (of_int 1) (of_int 2)) in
      if steps
      then record s { rnd = r2; step_offset = add s.step_offset by }
      else record s { rnd = r1 }

  -- The spike on a value: its sign is drawn after its size.
  unfoldable pub spike : F → F → SensorSignal F R → F × Bool × SensorSignal F R
  unfolding chance
  spike anomaly_rate v s =
      let (hit, r1) = chance anomaly_rate s.rnd in
      let (x, r2) = rd.float64 r1 in
      let (y, r3) = rd.float64 r2 in
      let size = mul s.amplitude (add (of_int 3) (mul x (of_int 4))) in
      if hit
      then (
        add v (if lt y (div (of_int 1) (of_int 2)) then sub nil size else size),
        true,
        record s { rnd = r3 },
      )
      else (v, false, record s { rnd = r1 })

  unfoldable pub sample : ℕ → F → F → SensorSignal F R → F × Bool × SensorSignal F R
  unfolding step_change spike
  sample now_ms step_rate anomaly_rate s =
      let s0 = if nat_eq s.start_ms 0 then record s { start_ms = now_ms } else s in
      let elapsed_ms = of_ℤ fl (difference now_ms s0.start_ms) in
      let elapsed_hours = div elapsed_ms (of_int 3600000) in
      let angle = add (div (mul (mul (of_int 2) rd.pi) elapsed_ms) s0.period_ms) s0.phase in
      let s1 = step_change step_rate s0 in
      let (noise, r) = rd.norm_float64 s1.rnd in
      let v =
        add
          (add
            (add (add s1.base (mul s1.amplitude (rd.sin angle)))
              (mul s1.drift_per_hour elapsed_hours))
            (mul noise s1.noise_std_dev))
          s1.step_offset in
      spike anomaly_rate v (record s1 { rnd = r })
