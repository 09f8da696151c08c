-- ===== src/Shadow.antt =====
-- internal/shadow: desired and reported configurations of devices.
pub mod Types
pub mod Drift
pub mod Store
pub mod Feedback
pub mod Reconciler
