-- ===== src/Ingest.antt =====
-- cmd/ingest: from the MQTT broker to JetStream.
pub mod Limiter
pub mod Handler
pub mod Delivery
