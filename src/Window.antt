-- ===== src/Window.antt =====
-- internal/window: incremental statistics, the sliding window, and the registry of windows.
pub mod Stats
pub mod Buffer
pub mod Search
pub mod Order
pub mod Eviction
pub mod Dedupe
pub mod Validity
pub mod Registry
