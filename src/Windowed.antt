-- ===== src/Windowed.antt =====
-- The windowed consumer of cmd/processor: from readings to metrics and alerts.
pub mod Consumer
pub mod Redelivery
