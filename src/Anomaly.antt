-- ===== src/Anomaly.antt =====
-- internal/anomaly: the detectors and the evaluator with its hysteresis.
pub mod Evaluator
pub mod Detectors
pub mod Streaks
pub mod Alternation
