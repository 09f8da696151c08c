-- ===== src/Device.antt =====
-- What cmd/fleet/device.go does with a desired configuration, and the sampling of its sensors.
pub mod Config
pub mod Validity
pub mod Handler
pub mod Messages
pub mod Signal
pub mod Sampler
pub mod Sampling
pub mod Loop
pub mod Keeps
pub mod Sequence
