-- ===== src/Examples/Routes.antt =====
-- crates/rustbox-daemon/src/routes over `MockBackend`.
use rustbox.Prelude.{ℕ, codes, [], none, some, ok, map, ◌≡◌, refl, text_eq}
use rustbox.Prelude.Dict
use rustbox.Prelude.Int.{pos}
use rustbox.Core.Network
use rustbox.Core.Sandbox.{Runtime, SandboxStatus}
use rustbox.Core.Command.{CommandStatus}
use rustbox.Vm.MockBackend
use rustbox.Vm.MockBackend.{mock_backend}
use rustbox.Daemon.Dto.{
  CommandResponse, CreateSandboxRequest, SandboxResponse, default_cpu, default_timeout,
}
use rustbox.Daemon.Orchestrator
use rustbox.Daemon.Orchestrator.Calls.{history}
use rustbox.Daemon.Orchestrator.Collector.{round}
use rustbox.Daemon.Routes.{Response, serve}
use rustbox.Daemon.Routes.Sandboxes.{create_sandbox, get_sandbox}
use rustbox.Daemon.Routes.Commands.{get_command}
use rustbox.Daemon.Routes.Lookups.{get_sandbox-create_sandbox}
use rustbox.Daemon.Routes.Outputs.{get_command-log, read_entry}
use rustbox.Examples.Daemon.{services, start, end, uuid, finished}

abbrev request : CreateSandboxRequest ℕ
request = record {
  runtime = Runtime.python313;
  cpu_count = default_cpu;
  timeout_secs = default_timeout;
  env = [];
  ports = [];
  network_policy = Network.default;
  source = none;
}

abbrev response : SandboxResponse
response = record {
  id = codes "sb";
  status = SandboxStatus.running;
  runtime = Runtime.python313;
  created_at = 10;
  started_at = some 11;
  stopped_at = none;
}

get_sandbox-create_sandbox_example :
    (◌≡◌ {A = ℕ} 201 201)
    × ((serve
          (get_sandbox services (codes "sb"))
          (create_sandbox services (codes "sb") 10 11 request start).1).0
        ≡ Response.success 200 response)
unfolding create_sandbox Orchestrator.create_sandbox mock_backend Orchestrator.new MockBackend.new
    Dict.get Dict.insert text_eq
get_sandbox-create_sandbox_example =
    get_sandbox-create_sandbox services (codes "sb") 10 11 request start 201 response refl

get_command-log_example :
    (body : CommandResponse) × ((get_command services (codes "other") (uuid 0) end).0
      ≡ ok (200, body))
    × (body.command_id ≡ uuid 0)
    × (body.status ≡ CommandStatus.completed (pos 0))
    × (map read_entry body.output ≡ finished.output_log)
unfolding history Orchestrator.get_command Orchestrator.create_sandbox Orchestrator.exec_command
    mock_backend Orchestrator.new MockBackend.new Dict.get Dict.insert text_eq round
get_command-log_example =
    get_command-log services end (codes "other") (uuid 0) (codes "sb")
      (CommandStatus.completed (pos 0)) finished.output_log refl
