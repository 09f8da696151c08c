-- ===== src/Examples.antt =====
-- Runs of the models at concrete inputs.
mod Anomaly
mod Alerts
mod Window
mod Memory
mod Rollout
mod Restart
mod Ingest
mod Migrations
mod Dynsec
mod Persist
mod Rules
mod Shadow
mod Console
mod Device
mod Rollback
mod Fleet
mod Tokens
mod Control
mod Hostagent
