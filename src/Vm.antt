-- ===== src/Vm.antt =====
-- crates/rustbox-vm: the backends, and the daemon's side of the agent connection.
pub mod MockBackend
pub mod Local
pub mod AgentClient
pub mod CaTrust
pub mod Firecracker
pub mod Docker
