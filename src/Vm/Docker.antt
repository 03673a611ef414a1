-- ===== src/Vm/Docker.antt =====
-- crates/rustbox-vm/src/docker: sandboxes as containers, on a host with Linux.
pub mod Engine
pub mod Network
pub mod Containers
pub mod Instances
pub mod Lifecycle
pub mod Agents
pub mod Backend
