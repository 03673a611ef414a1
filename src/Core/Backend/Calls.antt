-- ===== src/Core/Backend/Calls.antt =====
-- Sequences of calls of the methods of `VmBackend` in crates/rustbox-core/src/backend.rs, and what
-- they leave of a backend's state.
use rustbox.Prelude.{
  ℕ, Text, List, [], ◌∷◌, Bool, Option, none, some, Result, ok, err, Exec, ◌≡◌, arith,
}
use rustbox.Prelude.Int.{ℤ}
use rustbox.Prelude.Keeps.{Keeps}
use rustbox.Prelude.Atomic.{Atomic}
use rustbox.Core.Network.{NetworkPolicy}
use rustbox.Core.Sandbox.{SandboxId, SnapshotId, CommandId, SandboxStatus, SandboxConfig}
use rustbox.Core.Command.{CommandRequest, CommandOutput, SandboxMetrics}
use rustbox.Core.Error.{RustboxError}
use rustbox.Core.Backend.{VmBackend}

abbrev pub error_of : {A : Type 0} → Result RustboxError A → Option RustboxError
error_of (ok a) = none
error_of (err e) = some e

error_of-some :
    {A : Type 0} (r : Result RustboxError A) {e : RustboxError} → error_of r ≡ some e → r ≡ err e
error_of-some (ok a) h = absurd (ground arith)
error_of-some (err f) h = ground (arith, h)

-- A call of a backend. Its result is dropped.
pub data Call (IpNet : Type 0) : Type 0 where
  create : SandboxId → SandboxConfig IpNet → Call IpNet
  start : SandboxId → Call IpNet
  stop : SandboxId → Bool → Call IpNet
  status : SandboxId → Call IpNet
  exec : SandboxId → CommandRequest → Call IpNet
  kill_command : SandboxId → CommandId → ℤ → Call IpNet
  write_file : SandboxId → Text → List ℕ → Call IpNet
  read_file : SandboxId → Text → Call IpNet
  mkdir : SandboxId → Text → Call IpNet
  update_network_policy : SandboxId → NetworkPolicy IpNet → Call IpNet
  snapshot_create : SandboxId → Call IpNet
  snapshot_restore : SandboxId → SnapshotId → Call IpNet
  metrics : SandboxId → Call IpNet

module _ {IpNet : Type 0} where
  -- The sandbox that a call is about.
  abbrev pub target : Call IpNet → SandboxId
  target (Call.create id config) = id
  target (Call.start id) = id
  target (Call.stop id blocking) = id
  target (Call.status id) = id
  target (Call.exec id cmd) = id
  target (Call.kill_command id cmd_id signal) = id
  target (Call.write_file id path content) = id
  target (Call.read_file id path) = id
  target (Call.mkdir id path) = id
  target (Call.update_network_policy id policy) = id
  target (Call.snapshot_create id) = id
  target (Call.snapshot_restore id snap) = id
  target (Call.metrics id) = id

module _ {IpNet B : Type 0} (backend : VmBackend IpNet B) where
  unfoldable pub perform : Call IpNet → B → B
  perform (Call.create id config) b = (backend.create id config b).1
  perform (Call.start id) b = (backend.start id b).1
  perform (Call.stop id blocking) b = (backend.stop id blocking b).1
  perform (Call.status id) b = (backend.status id b).1
  perform (Call.exec id cmd) b = (backend.exec id cmd b).1
  perform (Call.kill_command id cmd_id signal) b = (backend.kill_command id cmd_id signal b).1
  perform (Call.write_file id path content) b = (backend.write_file id path content b).1
  perform (Call.read_file id path) b = (backend.read_file id path b).1
  perform (Call.mkdir id path) b = (backend.mkdir id path b).1
  perform (Call.update_network_policy id policy) b = (backend.update_network_policy id policy b).1
  perform (Call.snapshot_create id) b = (backend.snapshot_create id b).1
  perform (Call.snapshot_restore id snap) b = (backend.snapshot_restore id snap b).1
  perform (Call.metrics id) b = (backend.metrics id b).1

  unfoldable pub history : List (Call IpNet) → B → B
  unfolding perform
  history [] b = b
  history (call ∷ calls) b = history calls (perform call b)

  -- What every method keeps, all sequences of calls keep.
  pub history-Keeps :
      {P : B → Type 0}
      → ((call : Call IpNet) (b : B) → P b → P (perform call b))
      → (calls : List (Call IpNet)) (b : B) → P b
      → P (history calls b)
  unfolding history
  history-Keeps k [] b h = h
  history-Keeps k (call ∷ calls) b h = history-Keeps k calls (perform call b) (k call b h)

  -- The error of a call, if it fails.
  unfoldable pub failure : Call IpNet → B → Option RustboxError
  failure (Call.create id config) b = error_of (backend.create id config b).0
  failure (Call.start id) b = error_of (backend.start id b).0
  failure (Call.stop id blocking) b = error_of (backend.stop id blocking b).0
  failure (Call.status id) b = error_of (backend.status id b).0
  failure (Call.exec id cmd) b = error_of (backend.exec id cmd b).0
  failure (Call.kill_command id cmd_id signal) b =
      error_of (backend.kill_command id cmd_id signal b).0
  failure (Call.write_file id path content) b = error_of (backend.write_file id path content b).0
  failure (Call.read_file id path) b = error_of (backend.read_file id path b).0
  failure (Call.mkdir id path) b = error_of (backend.mkdir id path b).0
  failure (Call.update_network_policy id policy) b =
      error_of (backend.update_network_policy id policy b).0
  failure (Call.snapshot_create id) b = error_of (backend.snapshot_create id b).0
  failure (Call.snapshot_restore id snap) b = error_of (backend.snapshot_restore id snap b).0
  failure (Call.metrics id) b = error_of (backend.metrics id b).0

module _ {IpNet B : Type 0} where
  -- Every method of the backend that is called for an identifier in `Q` has the property `M`.
  pub record AllMethods (backend : VmBackend IpNet B) (Q : SandboxId → Type 0)
      (M : (A : Type 0) → Exec B RustboxError A → Type 0) : Type 0 where
    pub create :
        (id : SandboxId) (config : SandboxConfig IpNet)
        → Q id
        → M (Unit {0}) (backend.create id config)
    pub start : (id : SandboxId) → Q id → M (Unit {0}) (backend.start id)
    pub stop : (id : SandboxId) (blocking : Bool) → Q id → M (Unit {0}) (backend.stop id blocking)
    pub status : (id : SandboxId) → Q id → M SandboxStatus (backend.status id)
    pub exec :
        (id : SandboxId) (cmd : CommandRequest)
        → Q id
        → M (CommandId × List CommandOutput) (backend.exec id cmd)
    pub kill_command :
        (id : SandboxId) (cmd_id : CommandId) (signal : ℤ)
        → Q id
        → M (Unit {0}) (backend.kill_command id cmd_id signal)
    pub write_file :
        (id : SandboxId) (path : Text) (content : List ℕ)
        → Q id
        → M (Unit {0}) (backend.write_file id path content)
    pub read_file : (id : SandboxId) (path : Text) → Q id → M (List ℕ) (backend.read_file id path)
    pub mkdir : (id : SandboxId) (path : Text) → Q id → M (Unit {0}) (backend.mkdir id path)
    pub update_network_policy :
        (id : SandboxId) (policy : NetworkPolicy IpNet)
        → Q id
        → M (Unit {0}) (backend.update_network_policy id policy)
    pub snapshot_create : (id : SandboxId) → Q id → M SnapshotId (backend.snapshot_create id)
    pub snapshot_restore :
        (id : SandboxId) (snap : SnapshotId)
        → Q id
        → M (Unit {0}) (backend.snapshot_restore id snap)
    pub metrics : (id : SandboxId) → Q id → M SandboxMetrics (backend.metrics id)

  abbrev pub AllKeep : VmBackend IpNet B → (SandboxId → Type 0) → (B → Type 0) → Type 0
  AllKeep backend Q P = AllMethods backend Q (λ A m. Keeps P m)

  pub perform-AllKeep :
      (backend : VmBackend IpNet B) {Q : SandboxId → Type 0} {P : B → Type 0}
      → AllKeep backend Q P
      → (call : Call IpNet) (b : B) → Q (target call)
      → P b
      → P (perform backend call b)
  unfolding perform
  perform-AllKeep backend k (Call.create id config) b q = (k.create id config q).after b
  perform-AllKeep backend k (Call.start id) b q = (k.start id q).after b
  perform-AllKeep backend k (Call.stop id blocking) b q = (k.stop id blocking q).after b
  perform-AllKeep backend k (Call.status id) b q = (k.status id q).after b
  perform-AllKeep backend k (Call.exec id cmd) b q = (k.exec id cmd q).after b
  perform-AllKeep backend k (Call.kill_command id cmd_id signal) b q =
      (k.kill_command id cmd_id signal q).after b
  perform-AllKeep backend k (Call.write_file id path content) b q =
      (k.write_file id path content q).after b
  perform-AllKeep backend k (Call.read_file id path) b q = (k.read_file id path q).after b
  perform-AllKeep backend k (Call.mkdir id path) b q = (k.mkdir id path q).after b
  perform-AllKeep backend k (Call.update_network_policy id policy) b q =
      (k.update_network_policy id policy q).after b
  perform-AllKeep backend k (Call.snapshot_create id) b q = (k.snapshot_create id q).after b
  perform-AllKeep backend k (Call.snapshot_restore id snap) b q =
      (k.snapshot_restore id snap q).after b
  perform-AllKeep backend k (Call.metrics id) b q = (k.metrics id q).after b

  -- A call that fails leaves what `view` shows, if every method does.
  pub perform-Atomic :
      {V : Type 0} (backend : VmBackend IpNet B) {Q : SandboxId → Type 0} (view : B → V)
      → AllMethods backend Q (λ A m. Atomic view m)
      → (call : Call IpNet) (b : B) (e : RustboxError) → Q (target call)
      → failure backend call b ≡ some e
      → view (perform backend call b) ≡ view b
  unfolding perform failure
  perform-Atomic backend view k (Call.create id config) b e q h =
      (k.create id config q).unchanged b e (error_of-some _ h)
  perform-Atomic backend view k (Call.start id) b e q h =
      (k.start id q).unchanged b e (error_of-some _ h)
  perform-Atomic backend view k (Call.stop id blocking) b e q h =
      (k.stop id blocking q).unchanged b e (error_of-some _ h)
  perform-Atomic backend view k (Call.status id) b e q h =
      (k.status id q).unchanged b e (error_of-some _ h)
  perform-Atomic backend view k (Call.exec id cmd) b e q h =
      (k.exec id cmd q).unchanged b e (error_of-some _ h)
  perform-Atomic backend view k (Call.kill_command id cmd_id signal) b e q h =
      (k.kill_command id cmd_id signal q).unchanged b e (error_of-some _ h)
  perform-Atomic backend view k (Call.write_file id path content) b e q h =
      (k.write_file id path content q).unchanged b e (error_of-some _ h)
  perform-Atomic backend view k (Call.read_file id path) b e q h =
      (k.read_file id path q).unchanged b e (error_of-some _ h)
  perform-Atomic backend view k (Call.mkdir id path) b e q h =
      (k.mkdir id path q).unchanged b e (error_of-some _ h)
  perform-Atomic backend view k (Call.update_network_policy id policy) b e q h =
      (k.update_network_policy id policy q).unchanged b e (error_of-some _ h)
  perform-Atomic backend view k (Call.snapshot_create id) b e q h =
      (k.snapshot_create id q).unchanged b e (error_of-some _ h)
  perform-Atomic backend view k (Call.snapshot_restore id snap) b e q h =
      (k.snapshot_restore id snap q).unchanged b e (error_of-some _ h)
  perform-Atomic backend view k (Call.metrics id) b e q h =
      (k.metrics id q).unchanged b e (error_of-some _ h)
