-- ===== src/Fleet.antt =====
-- cmd/fleet: its runtime configuration, the pool of tokens, the manager and its slots; and the credentials of
-- internal/provisioning.
pub mod Runtime
pub mod Provisioning
pub mod Tokens
pub mod Manager
pub mod Indices
pub mod Starting
pub mod Cancelling
pub mod Numbering
pub mod Scaling
pub mod Claiming
pub mod Reaching
pub mod Status
pub mod Reuse
pub mod Api
