-- ===== src/Vm/Firecracker/Agents.antt =====
-- The methods of crates/rustbox-vm/src/firecracker/backend.rs that the agent of a running instance
-- answers.
use rustbox.Prelude.{ℕ, Text, codes, List, ◌++◌, Result, ok, err, ◌>>=◌, lift}
use rustbox.Prelude.Int.{ℤ}
use rustbox.Core.Sandbox.{SandboxId, CommandId}
use rustbox.Core.Command.{CommandRequest, CommandOutput, SandboxMetrics}
use rustbox.Core.Error.{RustboxError}
use rustbox.Core.Protocol.{AgentRequest, AgentResponse}
use rustbox.Vm.AgentClient.{ask, exec_streaming}
use rustbox.Vm.Firecracker.Host.{Host}
use rustbox.Vm.Firecracker.Instances.{Method, on_host, running_instance, agent_client_for}

module _ {IpNet C X H : Type 0} (host : Host IpNet C X H) where
  -- The stream of the agent runs in a task of its own.
  unfoldable pub exec :
      SandboxId → CommandRequest → Method IpNet C X H (CommandId × List CommandOutput)
  exec id cmd = do
    inst ← running_instance id
    cmd_id ← on_host (λ h. let (cmd_id, h') = host.new_id h in (ok cmd_id, h'))
    on_host (λ h.
        let (outputs, h') =
          exec_streaming host.sockets (agent_client_for inst) (AgentRequest.exec cmd) h in
        (ok (cmd_id, outputs), h'))

  -- A request to the agent of a running instance.
  unfoldable pub ask_agent : SandboxId → AgentRequest → Method IpNet C X H AgentResponse
  ask_agent id request = do
    inst ← running_instance id
    on_host (ask host.sockets (agent_client_for inst) request)

  unfoldable pub kill_command : SandboxId → CommandId → ℤ → Method IpNet C X H (Unit {0})
  unfolding ask_agent
  kill_command id cmd_id signal = do
    _resp ← ask_agent id (AgentRequest.kill cmd_id signal)
    lift (ok tt)

  unfoldable pub write_file : SandboxId → Text → List ℕ → Method IpNet C X H (Unit {0})
  unfolding ask_agent
  write_file id path content = do
    _resp ← ask_agent id (AgentRequest.write_file path content)
    lift (ok tt)

  unexpected : AgentResponse → RustboxError
  unexpected resp = RustboxError.agent_comm (codes "unexpected response: " ++ host.debug resp)

  file_content_of : AgentResponse → Result RustboxError (List ℕ)
  file_content_of (AgentResponse.file_content bytes) = ok bytes
  file_content_of (AgentResponse.error message) = err (RustboxError.agent_comm message)
  file_content_of resp = err (unexpected resp)

  unfoldable pub read_file : SandboxId → Text → Method IpNet C X H (List ℕ)
  unfolding ask_agent unexpected file_content_of
  read_file id path = do
    resp ← ask_agent id (AgentRequest.read_file path)
    lift (file_content_of resp)

  unfoldable pub mkdir : SandboxId → Text → Method IpNet C X H (Unit {0})
  unfolding ask_agent
  mkdir id path = do _resp ← ask_agent id (AgentRequest.mkdir path); lift (ok tt)

  metrics_of : AgentResponse → Result RustboxError SandboxMetrics
  metrics_of (AgentResponse.metrics_result m) = ok m
  metrics_of (AgentResponse.error message) = err (RustboxError.agent_comm message)
  metrics_of resp = err (unexpected resp)

  unfoldable pub metrics : SandboxId → Method IpNet C X H SandboxMetrics
  unfolding ask_agent unexpected metrics_of
  metrics id = do resp ← ask_agent id AgentRequest.metrics; lift (metrics_of resp)
