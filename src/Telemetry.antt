-- ===== src/Telemetry.antt =====
-- internal/telemetry: the payload schema, and the names of topics and subjects.
pub mod Schema
pub mod Split
pub mod Topics
