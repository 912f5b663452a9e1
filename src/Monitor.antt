-- ===== src/Monitor.antt =====
-- The monitor, cmd/monitor/main.go.
pub mod Commands
pub mod Actions
pub mod Cycle
pub mod Apply
pub mod Loop
pub mod Export
