-- ===== src/Vm/Local.antt =====
-- crates/rustbox-vm/src/local_backend.rs: sandboxes as directories, without isolation.
pub mod State
pub mod Commands
pub mod Files
pub mod Backend
