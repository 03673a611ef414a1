-- ===== src/Daemon/Orchestrator.antt =====
-- crates/rustbox-daemon/src/orchestrator.rs. A method takes the state and returns its result with
-- the state it leaves. What it draws from outside, identifiers and the clock, are arguments.
-- `broadcast` stands for the channel of `tokio::sync::broadcast`; a spawned task waits in
-- `collectors` with the messages that its receiver will deliver.
pub mod Collector
pub mod Calls
pub mod Sandboxes
pub mod Commands
pub mod Mirror
use rustbox.Prelude.{
  ℕ, Text, codes, List, [], ◌∷◌, ◌++◌, Bool, true, false, Option, none, some, Result, ok, err, Exec,
  ok_or, lift, gets, mapping_err, ◌>>=◌, ◌>>◌, map, if◌then◌else◌,
}
use rustbox.Prelude.Dict
use rustbox.Prelude.Dict.{Dict}
use rustbox.Prelude.Int.{ℤ}
use rustbox.Core.Network.{NetworkPolicy}
use rustbox.Core.Sandbox.{
  SandboxId, CommandId, SandboxStatus, SandboxConfig, Sandbox, Duration, DateTime,
}
use rustbox.Core.Command.{CommandRequest, CommandOutput, CommandStatus, SandboxMetrics}
use rustbox.Core.Error.{RustboxError}
use rustbox.Core.Backend.{VmBackend}
use rustbox.Storage.Snapshot.{SnapshotMetadata, SnapshotStore}

pub record Broadcast (Sender Receiver : Type 0) : Type 0 where
  pub channel : ℕ → Sender
  pub send : Sender → CommandOutput → Sender
  pub subscribe : Sender → Sender × Receiver

pub record SandboxEntry (IpNet : Type 0) : Type 0 where
  pub sandbox : Sandbox IpNet

pub record CommandEntry (Sender : Type 0) : Type 0 where
  pub sandbox_id : Text
  pub status : CommandStatus
  pub output_log : List CommandOutput
  pub subscribers : Sender

pub record Orchestrator (IpNet B Sender S : Type 0) : Type 0 where
  pub backend : B
  pub sandboxes : Dict (SandboxEntry IpNet)
  pub commands : Dict (CommandEntry Sender)
  pub snapshot_store : S
  pub collectors : List (CommandId × List CommandOutput)

-- `status != SandboxStatus::Running`
abbrev pub is_running : SandboxStatus → Bool
is_running SandboxStatus.running = true
is_running SandboxStatus.pending = false
is_running SandboxStatus.stopping = false
is_running SandboxStatus.stopped = false
is_running SandboxStatus.failed = false

abbrev pub Method : Type 0 → Type 0 → Type 0
Method O A = Exec O RustboxError A

module _ {IpNet B Sender S : Type 0} where
  -- A call of the backend, and of the snapshot store.
  abbrev pub on_backend :
      {A : Type 0} → Exec B RustboxError A → Method (Orchestrator IpNet B Sender S) A
  on_backend m o = let (r, b) = m o.backend in (r, record o { backend = b })

  abbrev pub on_store :
      {E A : Type 0} → (E → Text) → Exec S E A → Method (Orchestrator IpNet B Sender S) A
  on_store show m o =
      let (r, s) = mapping_err (λ e. RustboxError.storage (show e)) m o.snapshot_store in
      (r, record o { snapshot_store = s })

  -- `Orchestrator::new`
  unfoldable pub new : B → S → Orchestrator IpNet B Sender S
  new backend snapshot_store = record {
    backend = backend;
    sandboxes = [];
    commands = [];
    snapshot_store = snapshot_store;
    collectors = [];
  }

  abbrev insert_sandbox : Text → Sandbox IpNet → Method (Orchestrator IpNet B Sender S) (Unit {0})
  insert_sandbox id sandbox o =
      (ok tt, record o { sandboxes = Dict.insert id (record { sandbox = sandbox }) o.sandboxes })

  abbrev entry_of : Text → Method (Orchestrator IpNet B Sender S) (SandboxEntry IpNet)
  entry_of id = gets (λ o. ok_or (Dict.get id o.sandboxes) (RustboxError.sandbox_not_found id))

  unfoldable pub get_sandbox : Text → Method (Orchestrator IpNet B Sender S) (Sandbox IpNet)
  get_sandbox id = do entry ← entry_of id; lift (ok entry.sandbox)

  abbrev pub list_sandboxes : Orchestrator IpNet B Sender S → List (Sandbox IpNet)
  list_sandboxes o = map (λ e. e.sandbox) (Dict.values o.sandboxes)

  abbrev remove_sandbox : Text → Method (Orchestrator IpNet B Sender S) (Unit {0})
  remove_sandbox id o = (
    ok_or (elim (Dict.get id o.sandboxes) [ none ↦ none | some e ↦ some tt ])
        (RustboxError.sandbox_not_found id),
    record o { sandboxes = Dict.remove id o.sandboxes },
  )

  unfoldable pub update_timeout :
      Text → Duration → Method (Orchestrator IpNet B Sender S) (Sandbox IpNet)
  update_timeout id timeout = do
    entry ← entry_of id
    let sandbox = record entry.sandbox {
      config = record entry.sandbox.config { timeout = timeout };
    }
    insert_sandbox id sandbox
    lift (ok sandbox)

  abbrev command_of : Text → Method (Orchestrator IpNet B Sender S) (CommandEntry Sender)
  command_of cmd_id =
      gets (λ o. ok_or (Dict.get cmd_id o.commands) (RustboxError.command_not_found cmd_id))

  unfoldable pub get_command :
      Text → Method (Orchestrator IpNet B Sender S) (Text × CommandStatus × List CommandOutput)
  get_command cmd_id = do
    entry ← command_of cmd_id
    lift (ok (entry.sandbox_id, entry.status, entry.output_log))

  abbrev insert_command :
      Text → CommandEntry Sender → Method (Orchestrator IpNet B Sender S) (Unit {0})
  insert_command cmd_id entry o =
      (ok tt, record o { commands = Dict.insert cmd_id entry o.commands })

  abbrev spawn : CommandId → List CommandOutput → Method (Orchestrator IpNet B Sender S) (Unit {0})
  spawn cmd_id outputs o = (ok tt, record o { collectors = o.collectors ++ (cmd_id, outputs) ∷ [] })

-- What the orchestrator is built over.
pub record Services (IpNet B Sender Receiver S E : Type 0) : Type 0 where
  pub backend : VmBackend IpNet B
  pub broadcast : Broadcast Sender Receiver
  pub store : SnapshotStore E S

module _ {IpNet B Sender Receiver S E : Type 0}
    (services : Services IpNet B Sender Receiver S E) where
  open services use {backend, broadcast, store}

  -- `created` and `started` are the two readings of the clock.
  unfoldable pub create_sandbox :
      SandboxId
      → DateTime
      → DateTime
      → SandboxConfig IpNet
      → Method (Orchestrator IpNet B Sender S) (Sandbox IpNet)
  create_sandbox id created started config = do
    on_backend (backend.create id config)
    on_backend (backend.start id)
    let sandbox : Sandbox IpNet = record {
      id = id;
      config = config;
      status = SandboxStatus.running;
      created_at = created;
      started_at = some started;
      stopped_at = none;
    }
    insert_sandbox id sandbox
    lift (ok sandbox)

  unfoldable pub delete_sandbox : Text → Method (Orchestrator IpNet B Sender S) (Unit {0})
  delete_sandbox id = do on_backend (backend.stop id false); remove_sandbox id

  -- The new policy is stored before the backend is asked to enforce it.
  unfoldable pub update_network_policy :
      Text → NetworkPolicy IpNet → Method (Orchestrator IpNet B Sender S) (Sandbox IpNet)
  update_network_policy id policy = do
    entry ← entry_of id
    let sandbox = record entry.sandbox {
      config = record entry.sandbox.config { network_policy = policy };
    }
    insert_sandbox id sandbox
    on_backend (backend.update_network_policy id policy)
    lift (ok sandbox)

  run_command : Text → CommandRequest → Method (Orchestrator IpNet B Sender S) CommandId
  run_command sandbox_id cmd = do
    (cmd_id, outputs) ← on_backend (backend.exec sandbox_id cmd)
    insert_command cmd_id (record {
      sandbox_id = sandbox_id;
      status = CommandStatus.running;
      output_log = [];
      subscribers = broadcast.channel 64;
    })
    spawn cmd_id outputs
    lift (ok cmd_id)

  unfoldable pub exec_command :
      Text → CommandRequest → Method (Orchestrator IpNet B Sender S) CommandId
  unfolding run_command
  exec_command sandbox_id cmd = do
    entry ← entry_of sandbox_id
    if is_running entry.sandbox.status
        then run_command sandbox_id cmd
        else lift (err (RustboxError.sandbox_not_running sandbox_id))

  unfoldable pub subscribe_command_logs : Text → Method (Orchestrator IpNet B Sender S) Receiver
  subscribe_command_logs cmd_id = do
    entry ← command_of cmd_id
    let (sender, receiver) = broadcast.subscribe entry.subscribers
    insert_command cmd_id (record entry { subscribers = sender })
    lift (ok receiver)

  unfoldable pub kill_command : Text → Text → ℤ → Method (Orchestrator IpNet B Sender S) (Unit {0})
  kill_command sandbox_id cmd_id signal = on_backend (backend.kill_command sandbox_id cmd_id signal)

  unfoldable pub write_file :
      Text → Text → List ℕ → Method (Orchestrator IpNet B Sender S) (Unit {0})
  write_file sandbox_id path content = on_backend (backend.write_file sandbox_id path content)

  unfoldable pub read_file : Text → Text → Method (Orchestrator IpNet B Sender S) (List ℕ)
  read_file sandbox_id path = on_backend (backend.read_file sandbox_id path)

  unfoldable pub mkdir : Text → Text → Method (Orchestrator IpNet B Sender S) (Unit {0})
  mkdir sandbox_id path = on_backend (backend.mkdir sandbox_id path)

  unfoldable pub get_metrics : Text → Method (Orchestrator IpNet B Sender S) SandboxMetrics
  get_metrics sandbox_id = on_backend (backend.metrics sandbox_id)

  unfoldable pub create_snapshot :
      Text → Option Text → DateTime → Method (Orchestrator IpNet B Sender S) SnapshotMetadata
  create_snapshot sandbox_id description now = do
    snap_id ← on_backend (backend.snapshot_create sandbox_id)
    let metadata : SnapshotMetadata = record {
      id = snap_id;
      sandbox_id = sandbox_id;
      created_at = now;
      expires_at = none;
      size_bytes = 0;
      description = description;
    }
    on_store store.to_string (store.save metadata)
    lift (ok metadata)

  unfoldable pub list_snapshots : Method (Orchestrator IpNet B Sender S) (List SnapshotMetadata)
  list_snapshots = on_store store.to_string store.list_all

  unfoldable pub get_snapshot : Text → Method (Orchestrator IpNet B Sender S) SnapshotMetadata
  get_snapshot id = do
    found ← on_store store.to_string (store.get id)
    lift (ok_or found (RustboxError.snapshot_not_found id))

  unfoldable pub delete_snapshot : Text → Method (Orchestrator IpNet B Sender S) (Unit {0})
  delete_snapshot id = do
    deleted ← on_store store.to_string (store.delete id)
    if deleted then lift (ok tt) else lift (err (RustboxError.snapshot_not_found id))
