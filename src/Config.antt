-- ===== src/Config.antt =====
-- The settings of the services, from environment variables.
pub mod Env
pub mod Load
