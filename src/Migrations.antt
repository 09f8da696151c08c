-- ===== src/Migrations.antt =====
-- internal/migrations: the runner of the SQL files of deploy/migrations.
pub mod Split
pub mod Run
pub mod Recorded
pub mod Idle
pub mod Statements
pub mod Parts
