-- ===== src/Persist.antt =====
-- The persistence consumer of cmd/processor: from JetStream to the table of readings.
pub mod Rows
pub mod Consumer
pub mod Durability
