-- ===== src/Vm/MockBackend.antt =====
-- crates/rustbox-vm/src/mock_backend.rs. `uuid` is the sequence of the identifiers that
-- `CommandId::new` and `SnapshotId::new` issue, and `issued` counts them.
use rustbox.Prelude.{ℕ, ◌+◌, Text, codes, List, [], ◌∷◌, Bool, Option, none, some, ok, err, Exec}
use rustbox.Prelude.Dict
use rustbox.Prelude.Dict.{Dict}
use rustbox.Prelude.Int.{pos}
use rustbox.Core.Network.{NetworkPolicy}
use rustbox.Core.Sandbox.{SandboxId, SnapshotId, CommandId, SandboxStatus, SandboxConfig}
use rustbox.Core.Command
use rustbox.Core.Command.{CommandRequest, CommandOutput, SandboxMetrics}
use rustbox.Core.Error.{RustboxError}
use rustbox.Core.Backend.{VmBackend}

pub record MockSandbox (IpNet : Type 0) : Type 0 where
  pub config : SandboxConfig IpNet
  pub status : SandboxStatus

pub record MockBackend (IpNet : Type 0) : Type 0 where
  pub sandboxes : Dict (MockSandbox IpNet)
  pub issued : ℕ

module _ {IpNet : Type 0} where
  -- `MockBackend::new`
  unfoldable pub new : MockBackend IpNet
  new = record { sandboxes = []; issued = 0 }

  pub get_config : MockBackend IpNet → SandboxId → Option (SandboxConfig IpNet)
  get_config b id = elim (Dict.get id b.sandboxes) [ none ↦ none | some s ↦ some s.config ]

  create : SandboxId → SandboxConfig IpNet → Exec (MockBackend IpNet) RustboxError (Unit {0})
  create id config b = (
    ok tt,
    record b {
      sandboxes =
          Dict.insert id (record { config = config; status = SandboxStatus.pending }) b.sandboxes;
    },
  )

  -- A write through `get_mut`, or `SandboxNotFound`.
  with_sandbox :
      SandboxId
      → (MockSandbox IpNet → MockSandbox IpNet)
      → Option (MockSandbox IpNet)
      → Exec (MockBackend IpNet) RustboxError (Unit {0})
  with_sandbox id f none b = (err (RustboxError.sandbox_not_found id), b)
  with_sandbox id f (some s) b = (ok tt, record b { sandboxes = Dict.insert id (f s) b.sandboxes })

  start : SandboxId → Exec (MockBackend IpNet) RustboxError (Unit {0})
  start id b =
      with_sandbox id (λ s. record s { status = SandboxStatus.running }) (Dict.get id b.sandboxes) b

  stop : SandboxId → Bool → Exec (MockBackend IpNet) RustboxError (Unit {0})
  stop id blocking b =
      with_sandbox id (λ s. record s { status = SandboxStatus.stopped }) (Dict.get id b.sandboxes) b

  update_network_policy :
      SandboxId → NetworkPolicy IpNet → Exec (MockBackend IpNet) RustboxError (Unit {0})
  update_network_policy id policy b =
      with_sandbox id (λ s. record s { config = record s.config { network_policy = policy } })
        (Dict.get id b.sandboxes) b

  status : SandboxId → Exec (MockBackend IpNet) RustboxError SandboxStatus
  status id b = (
    elim (Dict.get id b.sandboxes) [
      | none ↦ err (RustboxError.sandbox_not_found id)
      | some s ↦ ok s.status
    ],
    b,
  )

  -- `contains_key` as a guard in front of a constant result.
  if_present : {A : Type 0} → SandboxId → A → Exec (MockBackend IpNet) RustboxError A
  if_present id a b = (
    elim (Dict.get id b.sandboxes) [
      | none ↦ err (RustboxError.sandbox_not_found id)
      | some s ↦ ok a
    ],
    b,
  )

  -- The same in front of a result that takes a new identifier.
  if_present_issuing :
      {A : Type 0}
      → SandboxId
      → (ℕ → A)
      → Option (MockSandbox IpNet)
      → Exec (MockBackend IpNet) RustboxError A
  if_present_issuing id f none b = (err (RustboxError.sandbox_not_found id), b)
  if_present_issuing id f (some s) b = (ok (f b.issued), record b { issued = b.issued + 1 })

  module _ (uuid : ℕ → Text) where
    exec :
        SandboxId
        → CommandRequest
        → Exec (MockBackend IpNet) RustboxError (CommandId × List CommandOutput)
    exec id cmd b =
        if_present_issuing id
          (λ n. (
            uuid n,
            CommandOutput.stdout (codes "mock output\n") ∷ CommandOutput.exit (pos 0) ∷ [],
          ))
          (Dict.get id b.sandboxes) b

    snapshot_create : SandboxId → Exec (MockBackend IpNet) RustboxError SnapshotId
    snapshot_create id b = if_present_issuing id uuid (Dict.get id b.sandboxes) b

    -- `impl VmBackend for MockBackend`
    unfoldable pub mock_backend : VmBackend IpNet (MockBackend IpNet)
    unfolding create with_sandbox start stop update_network_policy status if_present
        if_present_issuing exec snapshot_create
    mock_backend = record {
      create = create;
      start = start;
      stop = stop;
      status = status;
      exec = exec;
      kill_command = λ id cmd_id signal. if_present id tt;
      write_file = λ id path content. if_present id tt;
      read_file = λ id path. if_present id (codes "mock file content");
      mkdir = λ id path. if_present id tt;
      update_network_policy = update_network_policy;
      snapshot_create = snapshot_create;
      snapshot_restore = λ id snap. if_present id tt;
      metrics = λ id. if_present id Command.default;
    }
