-- ===== src/Vm/Local/Files.antt =====
-- The files of sandboxes in crates/rustbox-vm/src/local_backend.rs.
pub mod Paths
use rustbox.Prelude.{
  ◌>>◌, ℕ, Text, codes, List, [], ◌∷◌, ◌++◌, Bool, true, false, Option, none, some, Result, ok, err,
  Exec, ◌>>=◌, ◌>>◌, lift, mapping_err, starts_with, strip_prefix, if◌then◌else◌,
}
use rustbox.Prelude.Dict
use rustbox.Prelude.Dict.{Dict}
use rustbox.Prelude.Int.{ℤ}
use rustbox.Core.Network.{NetworkPolicy}
use rustbox.Core.Sandbox.{SandboxId, SnapshotId, CommandId, SandboxStatus, SandboxConfig}
use rustbox.Core.Command
use rustbox.Core.Command.{CommandRequest, CommandOutput, SandboxMetrics}
use rustbox.Core.Error.{RustboxError}
use rustbox.Core.Protocol.{OutputStream}
use rustbox.Core.Backend.{VmBackend}
use rustbox.Agent.Guest.{Command, Read}
use rustbox.Agent.Executor.{Reading, is_open, close, exit_code_of}
use rustbox.Vm.Local.State
use rustbox.Vm.Local.State.{
  Os, LocalSandbox, LocalBackend, Method, failed, clean, found, new, sandbox_of, write_back,
  on_host,
}

module _ {C H : Type 0} (os : Os C H) where
  abbrev pub make_parent : Option Text → Exec H RustboxError (Unit {0})
  make_parent none h = (ok tt, h)
  make_parent (some parent) h =
      mapping_err (failed (codes "failed to create parent dirs: ")) (os.create_dir_all parent) h

  -- The file is written after its directory was created, where it has one.
  abbrev pub put : Text → List ℕ → Exec H RustboxError (Unit {0})
  put full_path content =
      make_parent (os.parent full_path)
      >> mapping_err (failed (codes "failed to write file: ")) (os.write full_path content)

module _ {IpNet C H : Type 0} (os : Os C H) where
  unfoldable pub resolve_path : SandboxId → Text → Method IpNet C H Text
  resolve_path id path = do s ← sandbox_of id; lift (ok (os.join s.work_dir (clean path)))

  unfoldable pub write_file : SandboxId → Text → List ℕ → Method IpNet C H (Unit {0})
  unfolding resolve_path
  write_file id path content = do
    full_path ← resolve_path id path
    on_host (put os full_path content)

  unfoldable pub read_file : SandboxId → Text → Method IpNet C H (List ℕ)
  unfolding resolve_path
  read_file id path = do
    full_path ← resolve_path id path
    on_host (mapping_err (failed (codes "failed to read file: ")) (os.read full_path))

  unfoldable pub mkdir : SandboxId → Text → Method IpNet C H (Unit {0})
  unfolding resolve_path
  mkdir id path = do
    full_path ← resolve_path id path
    on_host
        (mapping_err (failed (codes "failed to create directory: ")) (os.create_dir_all full_path))
