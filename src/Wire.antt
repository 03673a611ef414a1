-- ===== src/Wire.antt =====
-- The wire between the daemon and the agent: crates/rustbox-agent/src/transport.rs and
-- `AgentConnection` of crates/rustbox-vm/src/agent_client.rs, which frame JSON messages alike.
pub mod Stream
pub mod Frame
pub mod Streaming
