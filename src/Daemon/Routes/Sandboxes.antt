-- ===== src/Daemon/Routes/Sandboxes.antt =====
-- crates/rustbox-daemon/src/routes/sandboxes.rs and settings.rs
use rustbox.Prelude.{ℕ, Text, List, map, ok, lift, gets, ◌>>=◌, ◌>>◌}
use rustbox.Core.Sandbox.{DateTime, Sandbox, SandboxConfig, SandboxId, from_secs}
use rustbox.Core.Command.{SandboxMetrics}
use rustbox.Daemon.Dto.{
  CreateSandboxRequest, SandboxResponse, UpdateNetworkPolicyRequest, UpdateTimeoutRequest,
}
use rustbox.Daemon.Orchestrator
use rustbox.Daemon.Orchestrator.{Method, Services}

abbrev pub sandbox_response : {IpNet : Type 0} → Sandbox IpNet → SandboxResponse
sandbox_response s = record {
  id = s.id;
  status = s.status;
  runtime = s.config.runtime;
  created_at = s.created_at;
  started_at = s.started_at;
  stopped_at = s.stopped_at;
}

module _ {IpNet B Sender Receiver S E : Type 0}
    (services : Services IpNet B Sender Receiver S E) where
  unfoldable pub create_sandbox :
      SandboxId
      → DateTime
      → DateTime
      → CreateSandboxRequest IpNet
      → Method (Orchestrator.Orchestrator IpNet B Sender S) (ℕ × SandboxResponse)
  create_sandbox id created started req = do
    let config : SandboxConfig IpNet = record {
      runtime = req.runtime;
      cpu_count = req.cpu_count;
      timeout = from_secs req.timeout_secs;
      env = req.env;
      ports = req.ports;
      network_policy = req.network_policy;
      source = req.source;
    }
    sandbox ← Orchestrator.create_sandbox services id created started config
    lift (ok (201, sandbox_response sandbox))

  unfoldable pub list_sandboxes :
      Method (Orchestrator.Orchestrator IpNet B Sender S) (ℕ × List SandboxResponse)
  list_sandboxes = gets (λ o. ok (200, map sandbox_response (Orchestrator.list_sandboxes o)))

  unfoldable pub get_sandbox :
      Text → Method (Orchestrator.Orchestrator IpNet B Sender S) (ℕ × SandboxResponse)
  get_sandbox id = do s ← Orchestrator.get_sandbox id; lift (ok (200, sandbox_response s))

  unfoldable pub delete_sandbox :
      Text → Method (Orchestrator.Orchestrator IpNet B Sender S) (ℕ × (Unit {0}))
  delete_sandbox id = do Orchestrator.delete_sandbox services id; lift (ok (200, tt))

  unfoldable pub get_metrics :
      Text → Method (Orchestrator.Orchestrator IpNet B Sender S) (ℕ × SandboxMetrics)
  get_metrics id = do metrics ← Orchestrator.get_metrics services id; lift (ok (200, metrics))

  unfoldable pub update_timeout :
      Text
      → UpdateTimeoutRequest
      → Method (Orchestrator.Orchestrator IpNet B Sender S) (ℕ × SandboxResponse)
  update_timeout id req = do
    s ← Orchestrator.update_timeout id (from_secs req.timeout_secs)
    lift (ok (200, sandbox_response s))

  unfoldable pub update_network_policy :
      Text
      → UpdateNetworkPolicyRequest IpNet
      → Method (Orchestrator.Orchestrator IpNet B Sender S) (ℕ × SandboxResponse)
  update_network_policy id req = do
    s ← Orchestrator.update_network_policy services id req.network_policy
    lift (ok (200, sandbox_response s))
