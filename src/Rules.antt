-- ===== src/Rules.antt =====
-- internal/rules: the detector rules and their reload.
pub mod Rule
pub mod Matching
pub mod Watch
