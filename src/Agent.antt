-- ===== src/Agent.antt =====
-- The agent inside a sandbox: crates/rustbox-agent/src. Each request on a connection is handled to
-- its end, and its responses go out in the order in which they were sent.
pub mod Guest
pub mod Executor
pub mod Handler
pub mod Connection
pub mod Delivery
