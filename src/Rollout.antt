-- ===== src/Rollout.antt =====
-- internal/rollout: staged rollouts of a configuration.
pub mod Types
pub mod Cohort
pub mod Health
pub mod Validate
pub mod Services
pub mod Signals
pub mod Engine
pub mod Commands
pub mod Lifecycle
pub mod Invariant
pub mod Ticks
pub mod Termination
pub mod Rollback
pub mod Reverting
pub mod Failures
pub mod Tables
pub mod Store
pub mod Backed
pub mod Frame
pub mod Rows
pub mod Listing
pub mod Agreement
pub mod Persistence
pub mod Resuming
pub mod Restart
pub mod Safety
pub mod Revival
