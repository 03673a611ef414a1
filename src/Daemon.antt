-- ===== src/Daemon.antt =====
-- crates/rustbox-daemon: the orchestrator, its background tasks and the HTTP layer.
pub mod Orchestrator
pub mod Watchdog
pub mod Reaper
pub mod ApiError
pub mod Dto
pub mod Routes
