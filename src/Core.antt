-- ===== src/Core.antt =====
-- crates/rustbox-core: the types that the crates share.
pub mod Network
pub mod Sandbox
pub mod Command
pub mod Error
pub mod Protocol
pub mod Backend
