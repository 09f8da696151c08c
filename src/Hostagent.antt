-- ===== src/Hostagent.antt =====
-- cmd/hostagent: the same configurations as a simulated device, and its sampling loop.
pub mod Config
pub mod Agent
pub mod Agents
