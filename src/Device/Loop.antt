-- ===== src/Device/Loop.antt =====
-- One turn of the loop of sampleLoop in cmd/fleet/device.go: a tick or a command of the chaos API. The other
-- inputs are what other goroutines do to the device between two turns.
use sense_grid.Common.{
  of_milliseconds, not, ltb_ℤ, pos, ℕ, ◌+◌, ◌-◌, ◌*◌, Bool, true, false, none, some, List, [], ◌∷◌,
  ◌++◌, ltb, if◌then◌else◌, ◌==◌, text_Eq, length, Float,
}
use sense_grid.Shadow.Types.{reporting_batched}
use sense_grid.Ingest.Handler.{milliseconds}
use sense_grid.Fleet.Runtime.{RuntimeConfig}
use sense_grid.Device.Config.{AppliedConfig}
use sense_grid.Device.Signal.{Rand, chance}
use sense_grid.Device.Sampler.{
  VirtualDevice, Broker, with_stats, record_reconnect, set_connected, number, positive,
  may_reconnect, is_due,
}
use sense_grid.Device.Sampling.{flush, collect}

pub data Input (F : Type 0) : Type 0 where
  ticked : Input F
  partition_for : ℕ → Input F
  -- The two callbacks of the MQTT client, and a new configuration.
  on_connect on_connection_lost : Input F
  configured : AppliedConfig F → Input F

module _ {F R W : Type 0} (fl : Float F) (rd : Rand F R) (br : Broker F W) where
  open br use {now as clock}

  -- A partition that is over: the device connects again, or waits another second.
  unfoldable pub heal : VirtualDevice F R → W → VirtualDevice F R × W
  heal d w =
      let (healed, set, w1) = br.connect w in
      let (t, w2) = clock w1 in
      if healed
      then (
        with_stats (λ s. record (record_reconnect set s) { partitioned = false })
            (record d { partitioned = false }),
        w1,
      )
      else (record d { heal_at = t + 1000000000 }, w2)

  unfoldable pub on_partitioned : VirtualDevice F R → W → VirtualDevice F R × W
  unfolding heal
  on_partitioned d w =
      let (t, w1) = clock w in
      let (d1, w2) = heal d w1 in if ltb t d.heal_at then (d, w1) else (d1, w2)

  -- The voluntary disconnect, and whether the tick goes on.
  unfoldable pub flaky : RuntimeConfig F → VirtualDevice F R → W → Bool × VirtualDevice F R × W
  unfolding chance
  flaky rt d w =
      let (drops, rnd1) = chance fl rd rt.disconnect_rate d.rnd in
      let d1 = record d { rnd = rnd1 } in
      let d2 = with_stats (set_connected false) d1 in
      let (back, set, w1) = br.connect (br.disconnect w) in
      if drops
      then (if back then (true, with_stats (record_reconnect set) d2, w1) else (false, d2, w1))
      else (true, d1, w)

  -- The reconnection after an involuntary loss, at most one in three seconds.
  unfoldable pub reconnect : VirtualDevice F R → W → VirtualDevice F R × W
  reconnect d w =
      let (t, w1) = clock w in
      let (now, w2) = clock w1 in
      let (back, set, w3) = br.connect w2 in
      let d1 = record d { last_reconnect_attempt = some now } in
      if may_reconnect t d.last_reconnect_attempt
      then (if back then with_stats (record_reconnect set) d1 else d1, w3)
      else (d, w1)

  -- The device's time of a reading, in milliseconds.
  unfoldable pub skewed_now : RuntimeConfig F → VirtualDevice F R → W → ℕ × VirtualDevice F R × W
  skewed_now rt d w =
      let (t, w1) = clock w in
      elim (positive rt.clock_skew_jitter_ms) [
        | none ↦ (milliseconds t, d, w1)
        | some n ↦
            let (k, rnd1) = rd.intn (2 * n) d.rnd in
            (milliseconds t + k - n, record d { rnd = rnd1 }, w1)
      ]

  -- `time.Since(lastFlush)`, where flushIntervalMS asks for it.
  unfoldable pub since_flush : AppliedConfig F → VirtualDevice F R → W → ℕ × W
  since_flush cfg d w = elim (positive cfg.flush_interval_ms) [
    | none ↦ (0, w)
    | some n ↦ let (t, w1) = clock w in (t - d.last_flush, w1)
  ]

  -- The end of a tick: at once, or when a batch is due.
  unfoldable pub flush_if_due : AppliedConfig F → VirtualDevice F R → W → VirtualDevice F R × W
  unfolding flush since_flush
  flush_if_due cfg d w =
      let (since, w1) = since_flush cfg d w in
      if cfg.mode == reporting_batched
      then (if is_due cfg (length d.pending) since then flush fl rd br d w1 else (d, w1))
      else flush fl rd br d w

  -- A tick that samples.
  unfoldable pub sample_tick :
      AppliedConfig F → RuntimeConfig F → VirtualDevice F R → W → VirtualDevice F R × W
  unfolding skewed_now collect flush_if_due
  sample_tick cfg rt d w =
      let (now_ms, d1, w1) = skewed_now rt d w in
      let (rs, d2, w2) = collect fl rd br now_ms cfg rt d1 w1 in
      let seq = d2.seq + length rs in
      let d3 =
        with_stats (λ s. record s { last_seq = seq })
          (record d2 { seq = seq; pending = d2.pending ++ number d2.seq rs }) in
      flush_if_due cfg d3 w2

  unfoldable pub connected_tick :
      AppliedConfig F → RuntimeConfig F → VirtualDevice F R → W → VirtualDevice F R × W
  unfolding flaky reconnect sample_tick
  connected_tick cfg rt d w =
      let (goes_on, d1, w1) = flaky rt d w in
      if goes_on
      then (if d1.stats.connected then sample_tick cfg rt d1 w1 else reconnect d1 w1)
      else (d1, w1)

  unfoldable pub tick : VirtualDevice F R → W → VirtualDevice F R × W
  unfolding on_partitioned connected_tick
  tick d w =
      let cfg = d.cfg_state in
      let period = of_milliseconds cfg.sample_interval_ms in
      let d1 = record d { ticker = period } in
      let (rt, w1) = br.load_runtime w in
      if not (ltb_ℤ (pos 0) period)
      then (record d1 { panicked = true }, w)
      else if d.partitioned
      then on_partitioned d1 w1
      else connected_tick cfg rt d1 w1

  -- `dur := <-d.partitionCh`.
  unfoldable pub partition_command : ℕ → VirtualDevice F R → W → VirtualDevice F R × W
  partition_command duration d w =
      let (t, w1) = clock w in
      if d.partitioned then (d, w) else (
        with_stats (λ s. record s { partitioned = true; connected = false })
            (record d { partitioned = true; heal_at = t + duration }),
        br.disconnect w1,
      )

  unfoldable pub step : Input F → VirtualDevice F R → W → VirtualDevice F R × W
  unfolding tick partition_command
  step ticked d w = tick d w
  step (partition_for duration) d w = partition_command duration d w
  step on_connect d w = (with_stats (set_connected true) d, w)
  step on_connection_lost d w = (with_stats (set_connected false) d, w)
  step (configured cfg) d w = (record d { cfg_state = cfg }, w)

  abbrev pub run : List (Input F) → VirtualDevice F R → W → VirtualDevice F R × W
  run [] d w = (d, w)
  run (i ∷ is) d w = let (d1, w1) = step i d w in run is d1 w1
