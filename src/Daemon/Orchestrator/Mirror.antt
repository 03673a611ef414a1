-- ===== src/Daemon/Orchestrator/Mirror.antt =====
-- The daemon over `MockBackend`, its test double: the two tables agree, so that no call on a known
-- sandbox fails.
use rustbox.Prelude.{
  ℕ, Text, List, Option, none, some, Result, ok, err, ◌≡◌, refl, sym, ap, ◌∙◌, arith, Option-cases,
  Bool-cases, inl, inr, text_eq, text_eq_iff,
}
use rustbox.Prelude.Dict
use rustbox.Prelude.Dict.{
  Dict, AllEntries, AllEntries-nil, get-insert, get-insert_self, get-insert_ne, get-remove_ne,
  get-remove, insert-insert,
}
use rustbox.Core.Network.{NetworkPolicy}
use rustbox.Core.Sandbox.{SandboxStatus, SandboxConfig, CommandId, DateTime, Duration}
use rustbox.Core.Command.{CommandRequest}
use rustbox.Vm.MockBackend.{MockSandbox, MockBackend, mock_backend}
use rustbox.Vm.MockBackend
use rustbox.Core.Error.{RustboxError}
use rustbox.Daemon.Orchestrator.Sandboxes.{IsLive, history-IsLive}
use rustbox.Storage.Snapshot.{SnapshotStore}
use rustbox.Daemon.Orchestrator.{
  Broadcast, Orchestrator, Services, SandboxEntry, new, create_sandbox, delete_sandbox,
  update_timeout, update_network_policy, exec_command, subscribe_command_logs, kill_command,
  write_file, read_file, mkdir, create_snapshot, list_snapshots, get_snapshot, delete_snapshot,
  get_metrics,
}
use rustbox.Daemon.Orchestrator.Calls.{Call, perform, history, history_induction}

module _ {IpNet : Type 0} where
  -- The backend runs the sandbox under the policy that the daemon has on file.
  pub record IsMirror (e : SandboxEntry IpNet) (m : MockSandbox IpNet) : Type 0 where
    pub running : m.status ≡ SandboxStatus.running
    pub same_policy : m.config.network_policy ≡ e.sandbox.config.network_policy

  abbrev pub Mirrors : Dict (SandboxEntry IpNet) → Dict (MockSandbox IpNet) → Type 0
  Mirrors s b =
      (id : Text) (e : SandboxEntry IpNet)
      → Dict.get id s ≡ some e
      → (m : MockSandbox IpNet) × (Dict.get id b ≡ some m) × IsMirror e m

  module _ (id : Text) (s : Dict (SandboxEntry IpNet)) (b : Dict (MockSandbox IpNet))
      (h : Mirrors s b) where
    Mirrors-insert :
        (e : SandboxEntry IpNet) (m : MockSandbox IpNet)
        → IsMirror e m
        → Mirrors (Dict.insert id e s) (Dict.insert id m b)
    Mirrors-insert e m p j f g = elim (Bool-cases (text_eq id j)) [
      | inl same ↦
          let k : e ≡ f = ground (arith, g, get-insert id j e s, same) in
          (
            m,
            ground (arith, get-insert id j m b, same),
            record { running = p.running; same_policy = ground (arith, p.same_policy, k) },
          )
      | inr other ↦
          let (n, found, q) = h j f (ground (arith, g, get-insert id j e s, other)) in
          (n, ground (arith, get-insert id j m b, other, found), q)
    ]

    Mirrors-remove : (m : MockSandbox IpNet) → Mirrors (Dict.remove id s) (Dict.insert id m b)
    Mirrors-remove m j f g = elim (Bool-cases (text_eq id j)) [
      | inl same ↦ absurd (ground (arith, g, get-remove id j s, same))
      | inr other ↦
          let (n, found, q) = h j f (ground (arith, g, get-remove id j s, other)) in
          (n, ground (arith, get-insert id j m b, other, found), q)
    ]

    Mirrors-update :
        (e : SandboxEntry IpNet) (m : MockSandbox IpNet)
        → Dict.get id b ≡ some m
        → IsMirror e m
        → Mirrors (Dict.insert id e s) b
    Mirrors-update e m there p j f g = elim (Bool-cases (text_eq id j)) [
      | inl same ↦
          let k : e ≡ f = ground (arith, g, get-insert id j e s, same) in
          (
            m,
            ground (
              arith,
              text_eq_iff id j,
              there,
              same,
              ap (λ i. Dict.get i b) ((text_eq_iff id j).0 same),
            ),
            record { running = p.running; same_policy = ground (arith, p.same_policy, k) },
          )
      | inr other ↦ h j f (ground (arith, g, get-insert id j e s, other))
    ]

module _ {IpNet Sender Receiver S E : Type 0} (uuid : ℕ → Text)
    (broadcast : Broadcast Sender Receiver) (store : SnapshotStore E S) where
  -- The daemon of the tests: its backend is the mock.
  abbrev pub mocked : Services IpNet (MockBackend IpNet) Sender Receiver S E
  mocked = record { backend = mock_backend uuid; broadcast = broadcast; store = store }

  abbrev pub IsMirrored : Orchestrator IpNet (MockBackend IpNet) Sender S → Type 0
  IsMirrored o = Mirrors o.sandboxes o.backend.sandboxes

  module _ (id : Text) (o : Orchestrator IpNet (MockBackend IpNet) Sender S)
      (h : IsMirrored o) where
    create-IsMirrored :
        (created begun : DateTime) (config : SandboxConfig IpNet)
        → IsMirrored (create_sandbox mocked id created begun config o).1
    unfolding create_sandbox mock_backend
    create-IsMirrored created begun config =
        rw (get-insert_self, create_sandbox, insert-insert)
          (Mirrors-insert id o.sandboxes o.backend.sandboxes h _ _
            (record { running = refl; same_policy = refl }))

    delete-IsMirrored : IsMirrored (delete_sandbox mocked id o).1
    unfolding delete_sandbox mock_backend
    delete-IsMirrored = elim (Option-cases (Dict.get id o.backend.sandboxes)) [
      | inl e ↦ rw (e, delete_sandbox) h
      | inr (m, e) ↦ rw (e, delete_sandbox) (Mirrors-remove id o.sandboxes o.backend.sandboxes h _)
    ]

    timeout-IsMirrored : (timeout : Duration) → IsMirrored (update_timeout id timeout o).1
    unfolding update_timeout
    timeout-IsMirrored timeout = elim (Option-cases (Dict.get id o.sandboxes)) [
      | inl e ↦ rw (e, update_timeout) h
      | inr (entry, e) ↦
          let (m, there, p) = h id entry e in
          rw (e, update_timeout)
            (Mirrors-update id o.sandboxes o.backend.sandboxes h _ m there
              (record { running = p.running; same_policy = p.same_policy }))
    ]

    policy-IsMirrored :
        (policy : NetworkPolicy IpNet) → IsMirrored (update_network_policy mocked id policy o).1
    unfolding update_network_policy mock_backend
    policy-IsMirrored policy = elim (Option-cases (Dict.get id o.sandboxes)) [
      | inl e ↦ rw (e, update_network_policy) h
      | inr (entry, e) ↦
          let (m, there, p) = h id entry e in
          rw (e, update_network_policy)
            (rw there (
              Mirrors-insert id o.sandboxes o.backend.sandboxes h _ _
                (record { running = p.running; same_policy = refl })))
    ]

    -- A call that leaves both tables alone.
    same-IsMirrored :
        (o' : Orchestrator IpNet (MockBackend IpNet) Sender S)
        → (o'.sandboxes ≡ o.sandboxes) × (o'.backend.sandboxes ≡ o.backend.sandboxes)
        → IsMirrored o'
    same-IsMirrored o' (e, f) j x g =
        let (m, there, p) = h j x (ap (Dict.get j) (sym e) ∙ g) in (m, ap (Dict.get j) f ∙ there, p)

    exec-IsMirrored : (cmd : CommandRequest) → IsMirrored (exec_command mocked id cmd o).1
    unfolding exec_command mock_backend
    exec-IsMirrored cmd =
        same-IsMirrored (exec_command mocked id cmd o).1 (ground arith, ground arith)

    snapshot-IsMirrored :
        (description : Option Text) (now : DateTime)
        → IsMirrored (create_snapshot mocked id description now o).1
    unfolding create_snapshot mock_backend
    snapshot-IsMirrored description now =
        same-IsMirrored (create_snapshot mocked id description now o).1 (ground arith, ground arith)

  perform-IsMirrored :
      (call : Call IpNet) (o : Orchestrator IpNet (MockBackend IpNet) Sender S)
      → IsMirrored o
      → IsMirrored (perform mocked call o)
  unfolding perform kill_command write_file read_file mkdir get_metrics list_snapshots get_snapshot
      delete_snapshot subscribe_command_logs mock_backend
  perform-IsMirrored (Call.create id created begun config) o h =
      create-IsMirrored id o h created begun config
  perform-IsMirrored (Call.delete id) o h = delete-IsMirrored id o h
  perform-IsMirrored (Call.update_timeout id timeout) o h = timeout-IsMirrored id o h timeout
  perform-IsMirrored (Call.update_network_policy id policy) o h = policy-IsMirrored id o h policy
  perform-IsMirrored (Call.exec id cmd) o h = exec-IsMirrored id o h cmd
  perform-IsMirrored (Call.create_snapshot id description now) o h =
      snapshot-IsMirrored id o h description now
  perform-IsMirrored (Call.collector_round n) o h = h
  perform-IsMirrored (Call.list_snapshots) o h = h
  perform-IsMirrored (Call.subscribe id) o h =
      same-IsMirrored id o h (perform mocked (Call.subscribe id) o) (ground arith, ground arith)
  perform-IsMirrored (Call.get_snapshot id) o h =
      same-IsMirrored id o h (perform mocked (Call.get_snapshot id) o) (ground arith, ground arith)
  perform-IsMirrored (Call.delete_snapshot id) o h =
      same-IsMirrored id o h (perform mocked (Call.delete_snapshot id) o)
        (ground arith, ground arith)
  perform-IsMirrored (Call.kill id cmd signal) o h = h
  perform-IsMirrored (Call.write_file id path content) o h = h
  perform-IsMirrored (Call.read_file id path) o h = h
  perform-IsMirrored (Call.mkdir id path) o h = h
  perform-IsMirrored (Call.metrics id) o h = h

  -- Over the mock backend, after any sequence of calls from the start, every sandbox in the daemon's
  -- table exists in the backend, runs there, and runs under the network policy that the daemon has
  -- on file for it.
  pub history-IsMirror :
      (calls : List (Call IpNet)) (s : S) (id : Text) (e : SandboxEntry IpNet)
      → Dict.get id (history mocked calls (new MockBackend.new s)).sandboxes ≡ some e
      → (m : MockSandbox IpNet) × (Dict.get id
            (history mocked calls (new MockBackend.new s)).backend.sandboxes
          ≡ some m)
        × IsMirror e m
  unfolding new
  history-IsMirror calls s =
      history_induction mocked IsMirrored perform-IsMirrored calls (new MockBackend.new s)
        (λ j e h. absurd (AllEntries-nil (λ k v. ⊥) j e h))

  -- What `exec_command` returns over the mock backend.
  abbrev pub exec_result :
      Text → Orchestrator IpNet (MockBackend IpNet) Sender S → Result RustboxError CommandId
  exec_result id o = elim (Dict.get id o.sandboxes) [
    | none ↦ err (RustboxError.sandbox_not_found id)
    | some e ↦ ok (uuid o.backend.issued)
  ]

  exec_command-mirrored :
      (id : Text) (cmd : CommandRequest) (o : Orchestrator IpNet (MockBackend IpNet) Sender S)
      → IsMirrored o
      → AllEntries IsLive o.sandboxes
      → (exec_command mocked id cmd o).0 ≡ exec_result id o
  unfolding exec_command mock_backend
  exec_command-mirrored id cmd o h live = elim (Option-cases (Dict.get id o.sandboxes)) [
    | inl e ↦ ground arith
    | inr (entry, e) ↦
        let (m, there, p) = h id entry e in ground (arith, e, there, (live id entry e).running)
  ]

  -- Over the mock backend, after any sequence of calls from the start, a command can be run in a
  -- sandbox exactly if the daemon knows it, and otherwise the error is that it was not found.
  pub exec_command-mocked :
      (calls : List (Call IpNet)) (s : S) (id : Text) (cmd : CommandRequest)
      → (exec_command mocked id cmd (history mocked calls (new MockBackend.new s))).0
        ≡ exec_result id (history mocked calls (new MockBackend.new s))
  exec_command-mocked calls s id cmd =
      exec_command-mirrored id cmd (history mocked calls (new MockBackend.new s))
        (history-IsMirror calls s) (history-IsLive mocked MockBackend.new s calls)
