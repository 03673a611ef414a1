-- ===== src/Vm/Local/Commands.antt =====
-- The commands of crates/rustbox-vm/src/local_backend.rs. The task that `exec` leaves behind is
-- `run_task`.
pub mod Stopping
pub mod Outputs
use rustbox.Prelude.{
  ℕ, Text, codes, List, [], ◌∷◌, ◌++◌, Bool, true, false, Option, none, some, Result, ok, err, Exec,
  ◌>>=◌, ◌>>◌, lift, mapping_err, starts_with, strip_prefix, if◌then◌else◌,
}
use rustbox.Prelude.Dict
use rustbox.Prelude.Dict.{Dict}
use rustbox.Prelude.Int.{ℤ}
use rustbox.Core.Network.{NetworkPolicy}
use rustbox.Core.Sandbox.{SandboxId, SnapshotId, CommandId, SandboxStatus, SandboxConfig}
use rustbox.Core.Command
use rustbox.Core.Command.{CommandRequest, CommandOutput, SandboxMetrics}
use rustbox.Core.Error.{RustboxError}
use rustbox.Core.Protocol.{OutputStream}
use rustbox.Core.Backend.{VmBackend}
use rustbox.Agent.Guest.{Command, Read}
use rustbox.Agent.Executor.{Reading, is_open, close, exit_code_of}
use rustbox.Vm.Local.State
use rustbox.Vm.Local.State.{
  Os, LocalSandbox, LocalBackend, Method, failed, clean, found, new, sandbox_of, write_back,
  on_host,
}

abbrev pub prefix_of : SandboxId → Text
prefix_of id = id ++ codes ":"

abbrev pub key_of : SandboxId → CommandId → Text
key_of id cmd_id = prefix_of id ++ cmd_id

-- One round of the loop of a reading task: the end and an error break it.
abbrev take_read : OutputStream → Result Text (List ℕ) → Reading → List CommandOutput × Reading
take_read stream (ok []) s = ([], close stream s)
take_read OutputStream.stdout (ok (b ∷ bytes)) s = (CommandOutput.stdout (b ∷ bytes) ∷ [], s)
take_read OutputStream.stderr (ok (b ∷ bytes)) s = (CommandOutput.stderr (b ∷ bytes) ∷ [], s)
take_read stream (err e) s = ([], close stream s)

-- Both reading tasks, until they have ended.
unfoldable pub stream_output : List Read → Reading → List CommandOutput
stream_output [] s = []
stream_output ((stream, result) ∷ reads) s =
    let (sent, s') = if is_open stream s then take_read stream result s else ([], s) in
    sent ++ stream_output reads s'

module _ {C : Type 0} where
  -- The keys that a filter on the prefix finds.
  unfoldable pub keys_with : Text → Dict C → List Text
  keys_with prefix [] = []
  keys_with prefix ((key, child) ∷ commands) =
      let rest = keys_with prefix commands in if starts_with prefix key then key ∷ rest else rest

module _ {IpNet C H : Type 0} (os : Os C H) where
  -- The loop over the keys; each child that is still there is removed and killed.
  unfoldable pub kill_all : List Text → LocalBackend IpNet C H → LocalBackend IpNet C H
  kill_all [] b = b
  kill_all (key ∷ keys) b = elim (Dict.get key b.running_commands) [
    | none ↦ kill_all keys b
    | some child ↦ kill_all keys (record b {
      running_commands = Dict.remove key b.running_commands;
      host = (os.kill child b.host).1;
    })
  ]

  unfoldable pub stop : SandboxId → Bool → Method IpNet C H (Unit {0})
  unfolding kill_all keys_with
  stop id blocking = do
    s ← sandbox_of id
    λ b. (ok tt, kill_all (keys_with (prefix_of id) b.running_commands) b)
    write_back id (record s { status = SandboxStatus.stopped })

  abbrev command_of : LocalSandbox IpNet → CommandRequest → Command
  command_of s cmd = record {
    program = cmd.cmd;
    args = cmd.args;
    current_dir =
        some (elim cmd.cwd [ none ↦ s.work_dir | some cwd ↦ os.join s.work_dir (clean cwd) ]);
    envs = cmd.env;
    piped = true;
  }

  -- `exec` up to its task: the child is in the table.
  unfoldable pub start_command : SandboxId → CommandRequest → Method IpNet C H (CommandId × C)
  start_command id cmd = do
    s ← sandbox_of id
    child ←
        on_host
          (mapping_err (failed (codes "failed to spawn process: ")) (os.spawn (command_of s cmd)))
    cmd_id ← on_host (λ h. let (cmd_id, h') = os.new_id h in (ok cmd_id, h'))
    λ b. (
      ok (cmd_id, child),
      record b { running_commands = Dict.insert (key_of id cmd_id) child b.running_commands },
    )

  -- What the task sends to a receiver that stays, and the backend when it has ended. The task takes
  -- the command out of a clone of the table, which is a copy, so the table itself stays.
  unfoldable pub run_task : C → LocalBackend IpNet C H → List CommandOutput × LocalBackend IpNet C H
  unfolding stream_output
  run_task child b =
      let (reads, h) = os.reads child b.host in
      let outputs = stream_output reads (record { stdout_open = true; stderr_open = true }) in
      let (exit, h') = os.wait child h in
      (outputs ++ CommandOutput.exit (exit_code_of exit) ∷ [], record b { host = h' })

  -- Where nothing comes between the method and the end of its task.
  unfoldable pub exec :
      SandboxId → CommandRequest → Method IpNet C H (CommandId × List CommandOutput)
  unfolding start_command run_task
  exec id cmd = do
    started ← start_command id cmd
    λ b. let (outputs, b') = run_task started.1 b in (ok (started.0, outputs), b')

  -- A command that is not in the table is not an error.
  unfoldable pub kill_found : Text → Option C → Method IpNet C H (Unit {0})
  kill_found key none b = (ok tt, b)
  kill_found key (some child) b =
      on_host (mapping_err (failed (codes "failed to kill process: ")) (os.kill child))
        (record b { running_commands = Dict.remove key b.running_commands })

  unfoldable pub kill_command : SandboxId → CommandId → ℤ → Method IpNet C H (Unit {0})
  unfolding kill_found
  kill_command id cmd_id signal = do
    _s ← sandbox_of id
    λ b. kill_found (key_of id cmd_id) (Dict.get (key_of id cmd_id) b.running_commands) b
