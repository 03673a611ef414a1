-- ===== src/Vm/Local/Backend.antt =====
-- `impl VmBackend` of crates/rustbox-vm/src/local_backend.rs: statuses and snapshots, and the methods of
-- Commands and Files.
pub mod Tables
pub mod Quiet
pub mod Refines
use rustbox.Prelude.{
  ℕ, Text, codes, List, [], ◌∷◌, ◌++◌, Bool, true, false, Option, none, some, Result, ok, err, Exec,
  ◌>>=◌, ◌>>◌, lift, mapping_err, starts_with, strip_prefix, if◌then◌else◌,
}
use rustbox.Prelude.Dict
use rustbox.Prelude.Dict.{Dict}
use rustbox.Prelude.Int.{ℤ}
use rustbox.Core.Network.{NetworkPolicy}
use rustbox.Core.Sandbox.{SandboxId, SnapshotId, CommandId, SandboxStatus, SandboxConfig}
use rustbox.Core.Command
use rustbox.Core.Command.{CommandRequest, CommandOutput, SandboxMetrics}
use rustbox.Core.Error.{RustboxError}
use rustbox.Core.Protocol.{OutputStream}
use rustbox.Core.Backend.{VmBackend}
use rustbox.Agent.Guest.{Command, Read}
use rustbox.Agent.Executor.{Reading, is_open, close, exit_code_of}
use rustbox.Vm.Local.State
use rustbox.Vm.Local.State.{
  Os, LocalSandbox, LocalBackend, Method, failed, clean, found, new, sandbox_of, write_back,
  on_host,
}
use rustbox.Vm.Local.Commands.{stop, exec, kill_command}
use rustbox.Vm.Local.Files.{write_file, read_file, mkdir}

abbrev pub sandbox_base_dir : Text
sandbox_base_dir = codes "/tmp/rustbox-sandboxes"

module _ {IpNet C H : Type 0} where
  unfoldable pub start : SandboxId → Method IpNet C H (Unit {0})
  start id = do s ← sandbox_of id; write_back id (record s { status = SandboxStatus.running })

  unfoldable pub status : SandboxId → Method IpNet C H SandboxStatus
  status id = do s ← sandbox_of id; lift (ok s.status)

  unfoldable pub update_network_policy :
      SandboxId → NetworkPolicy IpNet → Method IpNet C H (Unit {0})
  update_network_policy id policy = do
    s ← sandbox_of id
    write_back id (record s { config = record s.config { network_policy = policy } })

  -- `contains_key` in front of a constant result.
  unfoldable pub if_present : {A : Type 0} → SandboxId → A → Method IpNet C H A
  if_present id a = do _s ← sandbox_of id; lift (ok a)

module _ {IpNet C H : Type 0} (os : Os C H) where
  unfoldable pub create : SandboxId → SandboxConfig IpNet → Method IpNet C H (Unit {0})
  create id config = do
    on_host (
        mapping_err (failed (codes "failed to create work dir: "))
          (os.create_dir_all (os.join sandbox_base_dir id)))
    write_back id (record {
      config = config;
      status = SandboxStatus.pending;
      work_dir = os.join sandbox_base_dir id;
    })

  unfoldable pub snapshot_create : SandboxId → Method IpNet C H SnapshotId
  snapshot_create id = do
    _s ← sandbox_of id
    on_host (λ h. let (snap_id, h') = os.new_id h in (ok snap_id, h'))

  -- `impl VmBackend for LocalBackend`
  unfoldable pub local_backend : VmBackend IpNet (LocalBackend IpNet C H)
  local_backend = record {
    create = create;
    start = start;
    stop = stop os;
    status = status;
    exec = exec os;
    kill_command = kill_command os;
    write_file = write_file os;
    read_file = read_file os;
    mkdir = mkdir os;
    update_network_policy = update_network_policy;
    snapshot_create = snapshot_create;
    snapshot_restore = λ id snap. if_present id tt;
    metrics = λ id. if_present id Command.default;
  }
