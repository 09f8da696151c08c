-- ===== src/Control.antt =====
-- The device registry, its registration tokens, and the claims, the roles and the API of cmd/control.
pub mod Devices
pub mod Tokens
pub mod Claim
pub mod Claims
pub mod Auth
pub mod Access
pub mod Login
pub mod Sessions
pub mod Http
pub mod ShadowApi
pub mod Configured
pub mod RolloutApi
pub mod Planned
pub mod Relay
pub mod Feed
pub mod AlertApi
