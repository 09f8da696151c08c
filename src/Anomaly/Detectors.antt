-- ===== src/Anomaly/Detectors.antt =====
-- internal/anomaly/detectors.go. The zero time is none; a gap is not negative, as both times are of
-- the same monotonic clock.
use sense_grid.Common.{ℕ, ◌-◌, Bool, false, Option, none, some, ltb, if◌then◌else◌, Float}
use sense_grid.Shadow.Drift.{since_exceeds}
use sense_grid.Rules.Rule.{Rule}
use sense_grid.Window.Buffer.{Window, count, mean, deviation}

module _ {F : Type 0} (fl : Float F) where
  unfoldable pub evaluate_zscore : F → Window F → Rule F → Bool × F
  evaluate_zscore value w rule =
      let stddev = deviation fl w in
      let z = fl.div (fl.abs (fl.sub value (mean fl w))) stddev in
      if ltb (count fl w) 2
      then (false, fl.nil)
      else if fl.equal stddev fl.nil
      then (false, fl.nil)
      else (fl.lt rule.threshold z, z)

  unfoldable pub evaluate_rate_of_change : Window F → Rule F → Bool × F
  evaluate_rate_of_change w rule =
      let d = fl.abs (fl.sub w.ewma.value w.prev_ewma) in
      if ltb (count fl w) 2 then (false, fl.nil) else (fl.lt rule.threshold d, d)

  unfoldable pub evaluate_silence : Option ℕ → ℕ → Rule F → Bool × ℕ
  evaluate_silence none now rule = (false, 0)
  evaluate_silence (some last_seen) now rule =
      (since_exceeds now last_seen rule.silence_timeout, now - last_seen)
