-- ===== src/Core/Backend.antt =====
-- crates/rustbox-core/src/backend.rs: the trait `VmBackend` as a record of operations on the
-- backend's state. The receiver that `exec` returns is the sequence of messages that arrive on it
-- before its channel closes.
pub mod Calls
use rustbox.Prelude.{ℕ, Text, List, Bool, Exec}
use rustbox.Prelude.Int.{ℤ}
use rustbox.Core.Network.{NetworkPolicy}
use rustbox.Core.Sandbox.{SandboxId, SnapshotId, CommandId, SandboxStatus, SandboxConfig}
use rustbox.Core.Command.{CommandRequest, CommandOutput, SandboxMetrics}
use rustbox.Core.Error.{RustboxError}

pub record VmBackend (IpNet B : Type 0) : Type 0 where
  pub create : SandboxId → SandboxConfig IpNet → Exec B RustboxError (Unit {0})
  pub start : SandboxId → Exec B RustboxError (Unit {0})
  pub stop : SandboxId → Bool → Exec B RustboxError (Unit {0})
  pub status : SandboxId → Exec B RustboxError SandboxStatus
  pub exec : SandboxId → CommandRequest → Exec B RustboxError (CommandId × List CommandOutput)
  pub kill_command : SandboxId → CommandId → ℤ → Exec B RustboxError (Unit {0})
  pub write_file : SandboxId → Text → List ℕ → Exec B RustboxError (Unit {0})
  pub read_file : SandboxId → Text → Exec B RustboxError (List ℕ)
  pub mkdir : SandboxId → Text → Exec B RustboxError (Unit {0})
  pub update_network_policy : SandboxId → NetworkPolicy IpNet → Exec B RustboxError (Unit {0})
  pub snapshot_create : SandboxId → Exec B RustboxError SnapshotId
  pub snapshot_restore : SandboxId → SnapshotId → Exec B RustboxError (Unit {0})
  pub metrics : SandboxId → Exec B RustboxError SandboxMetrics
