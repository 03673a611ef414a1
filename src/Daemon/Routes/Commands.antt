-- ===== src/Daemon/Routes/Commands.antt =====
-- crates/rustbox-daemon/src/routes/commands.rs. The stream of `stream_logs` is its receiver.
use rustbox.Prelude.{ℕ, Text, codes, map, ok, lift, some, none, ◌>>=◌, ◌>>◌}
use rustbox.Prelude.Int.{pos}
use rustbox.Core.Command.{CommandOutput, CommandRequest}
use rustbox.Daemon.Dto.{CommandOutputEntry, CommandResponse, ExecRequest, ExecResponse}
use rustbox.Daemon.Orchestrator
use rustbox.Daemon.Orchestrator.{Method, Services}

unfoldable pub output_entry : CommandOutput → CommandOutputEntry
output_entry (CommandOutput.stdout bytes) = record {
  stream = codes "stdout";
  bytes = some bytes;
  exit_code = none;
}
output_entry (CommandOutput.stderr bytes) = record {
  stream = codes "stderr";
  bytes = some bytes;
  exit_code = none;
}
output_entry (CommandOutput.exit code) = record {
  stream = codes "exit";
  bytes = none;
  exit_code = some code;
}

module _ {IpNet B Sender Receiver S E : Type 0}
    (services : Services IpNet B Sender Receiver S E) where
  unfoldable pub exec_command :
      Text → ExecRequest → Method (Orchestrator.Orchestrator IpNet B Sender S) (ℕ × ExecResponse)
  exec_command sandbox_id req = do
    let cmd : CommandRequest = record {
      cmd = req.cmd;
      args = req.args;
      cwd = req.cwd;
      env = req.env;
      sudo = req.sudo;
      detached = req.detached;
    }
    command_id ← Orchestrator.exec_command services sandbox_id cmd
    lift (ok (200, record { command_id = command_id }))

  -- The sandbox in the path is not looked at.
  unfoldable pub get_command :
      Text → Text → Method (Orchestrator.Orchestrator IpNet B Sender S) (ℕ × CommandResponse)
  unfolding output_entry
  get_command _sandbox_id cmd_id = do
    (_sid, status, log) ← Orchestrator.get_command cmd_id
    lift (ok (200, record { command_id = cmd_id; status = status; output = map output_entry log }))

  unfoldable pub stream_logs :
      Text → Text → Method (Orchestrator.Orchestrator IpNet B Sender S) (ℕ × Receiver)
  stream_logs _sandbox_id cmd_id = do
    rx ← Orchestrator.subscribe_command_logs services cmd_id
    lift (ok (200, rx))

  unfoldable pub kill_command :
      Text → Text → Method (Orchestrator.Orchestrator IpNet B Sender S) (ℕ × (Unit {0}))
  kill_command sandbox_id cmd_id = do
    Orchestrator.kill_command services sandbox_id cmd_id (pos 9)
    lift (ok (200, tt))
