-- ===== src/Alerts.antt =====
-- internal/alerts: the transition table, and the repository behind it.
pub mod Machine
pub mod Store
pub mod Queries
pub mod History
pub mod Lifecycle
