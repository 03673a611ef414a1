-- ===== src/Vm/Firecracker.antt =====
-- crates/rustbox-vm/src/firecracker: virtual machines by the Firecracker hypervisor.
pub mod Http
pub mod Api
pub mod Network
pub mod Process
pub mod Host
pub mod Instances
pub mod Lifecycle
pub mod Agents
pub mod Backend
