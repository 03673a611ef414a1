-- ===== src/Core/Protocol.antt =====
-- crates/rustbox-core/src/protocol.rs, and the agent's own copy of the same messages,
-- crates/rustbox-agent/src/protocol.rs.
use rustbox.Prelude.{ℕ, Text, List}
use rustbox.Prelude.Int.{ℤ}
use rustbox.Core.Command.{CommandRequest, SandboxMetrics}

pub data AgentRequest : Type 0 where
  exec : CommandRequest → AgentRequest
  kill : Text → ℤ → AgentRequest
  write_file : Text → List ℕ → AgentRequest
  read_file : Text → AgentRequest
  mkdir : Text → AgentRequest
  metrics : AgentRequest
  ping : AgentRequest

pub data OutputStream : Type 0 where
  stdout stderr : OutputStream

pub data AgentResponse : Type 0 where
  exec_started : Text → AgentResponse
  output : Text → OutputStream → List ℕ → AgentResponse
  exec_done : Text → ℤ → AgentResponse
  file_content : List ℕ → AgentResponse
  ok : AgentResponse
  error : Text → AgentResponse
  metrics_result : SandboxMetrics → AgentResponse
  pong : AgentResponse
