-- ===== src/Dynsec.antt =====
-- internal/dynsec: the accounts of the broker, and how cmd/control sets up its roles.
pub mod Client
pub mod Correlation
pub mod Commands
pub mod Bootstrap
pub mod Ready
