-- ===== src/Vm/Local/Backend/Refines.antt =====
-- What crates/rustbox-vm/src/local_backend.rs and mock_backend.rs have in common: the table of
-- sandboxes.
use rustbox.Prelude.{
  ℕ, Text, codes, Bool, some, Result, ok, err, continue, map_err, ◌≡◌, refl, ap, sym, ◌∙◌,
  Option-cases, inl, inr,
}
use rustbox.Prelude.Dict
use rustbox.Prelude.Dict.{Dict}
use rustbox.Core.Sandbox.{SandboxId, SandboxConfig, SandboxStatus}
use rustbox.Core.Command
use rustbox.Core.Network.{NetworkPolicy}
use rustbox.Core.Command.{CommandRequest}
use rustbox.Core.Backend.Calls.{Call, failure, perform}
use rustbox.Vm.MockBackend.{MockSandbox, MockBackend, mock_backend}
use rustbox.Vm.Local.State.{failed, Os, LocalSandbox, LocalBackend, write_back}
use rustbox.Vm.Local.Commands.{stop, exec, kill_command, keys_with, prefix_of}
use rustbox.Vm.Local.Commands.Stopping.{kill_all-sandboxes}
use rustbox.Vm.Local.Files.{write_file, read_file, mkdir}
use rustbox.Vm.Local.Backend
use rustbox.Vm.Local.Backend.{local_backend, sandbox_base_dir}
use rustbox.Vm.Local.Backend.Tables.{
  forget, forget_all, forget_all-insert, mock_of, local_rules, either, Follows, Quiet-Follows,
  sandbox_of-Follows,
}
use rustbox.Vm.Local.Backend.Quiet.{
  exec-Quiet, kill_command-Quiet, write_file-Quiet, read_file-Quiet, mkdir-Quiet,
  snapshot_create-Quiet,
}

module _ {IpNet : Type 0} (uuid : ℕ → Text) where
  mock-exec :
      (id : SandboxId) (cmd : CommandRequest) (m : MockBackend IpNet)
      → ((mock_backend uuid).exec id cmd m).1.sandboxes ≡ m.sandboxes
  unfolding mock_backend
  mock-exec id cmd m = elim (Option-cases (Dict.get id m.sandboxes)) [
    | inl missing ↦ rw missing refl
    | inr (s, there) ↦ rw there refl
  ]

  mock-snapshot_create :
      (id : SandboxId) (m : MockBackend IpNet)
      → ((mock_backend uuid).snapshot_create id m).1.sandboxes ≡ m.sandboxes
  unfolding mock_backend
  mock-snapshot_create id m = elim (Option-cases (Dict.get id m.sandboxes)) [
    | inl missing ↦ rw missing refl
    | inr (s, there) ↦ rw there refl
  ]

  mock-start :
      (id : SandboxId) (m : MockBackend IpNet) (s : MockSandbox IpNet)
      → Dict.get id m.sandboxes ≡ some s
      → ((mock_backend uuid).start id m).1.sandboxes
        ≡ Dict.insert id (record s { status = SandboxStatus.running }) m.sandboxes
  unfolding mock_backend
  mock-start id m s there = rw there refl

  mock-stop :
      (id : SandboxId) (blocking : Bool) (m : MockBackend IpNet) (s : MockSandbox IpNet)
      → Dict.get id m.sandboxes ≡ some s
      → ((mock_backend uuid).stop id blocking m).1.sandboxes
        ≡ Dict.insert id (record s { status = SandboxStatus.stopped }) m.sandboxes
  unfolding mock_backend
  mock-stop id blocking m s there = rw there refl

  mock-update_network_policy :
      (id : SandboxId) (policy : NetworkPolicy IpNet) (m : MockBackend IpNet)
      (s : MockSandbox IpNet)
      → Dict.get id m.sandboxes ≡ some s
      → ((mock_backend uuid).update_network_policy id policy m).1.sandboxes
        ≡ Dict.insert id
            (record s { config = record s.config { network_policy = policy } })
            m.sandboxes
  unfolding mock_backend
  mock-update_network_policy id policy m s there = rw there refl

module _ {IpNet C H : Type 0} (os : Os C H) (uuid : ℕ → Text) where
  -- The tables after a call of both backends.
  abbrev Agrees : Call IpNet → LocalBackend IpNet C H → Type 0
  Agrees call b =
      forget_all (perform (local_backend os) call b).sandboxes
      ≡ either (failure (local_backend os) call b)
          (perform (mock_backend uuid) call (mock_of b)).sandboxes (forget_all b.sandboxes)

  abbrev created : SandboxId → SandboxConfig IpNet → LocalSandbox IpNet
  created id config = record {
    config = config;
    status = SandboxStatus.pending;
    work_dir = os.join sandbox_base_dir id;
  }

  create-Agrees :
      (id : SandboxId) (config : SandboxConfig IpNet) (b : LocalBackend IpNet C H)
      → Agrees (Call.create id config) b
  unfolding perform failure local_backend mock_backend Backend.create
  create-Agrees id config b = by_result (os.create_dir_all (os.join sandbox_base_dir id) b.host)
    where
      by_result :
          (p : Result Text (Unit {0}) × H)
          → Follows
              (forget_all b.sandboxes)
              (Dict.insert id (forget (created id config)) (forget_all b.sandboxes))
              (continue
                (map_err (failed (codes "failed to create work dir: ")) p.0)
                (λ _. write_back id (created id config))
                (record b { host = p.1 }))
      by_result (ok a, h) = forget_all-insert id (created id config) b.sandboxes
      by_result (err e, h) = refl

  start-Agrees : (id : SandboxId) (b : LocalBackend IpNet C H) → Agrees (Call.start id) b
  unfolding perform failure local_backend Backend.start
  start-Agrees id b = sandbox_of-Follows id _ b _ (λ s there.
      forget_all-insert id (record s { status = SandboxStatus.running }) b.sandboxes
      ∙ sym (mock-start uuid id (mock_of b) (forget s) there))

  stop-Agrees :
      (id : SandboxId) (blocking : Bool) (b : LocalBackend IpNet C H)
      → Agrees (Call.stop id blocking) b
  unfolding perform failure local_backend stop
  stop-Agrees id blocking b = sandbox_of-Follows id _ b _ (λ s there.
      let stopped : LocalSandbox IpNet = record s { status = SandboxStatus.stopped } in
      ap (λ t. forget_all (Dict.insert id stopped t))
        (kill_all-sandboxes os (keys_with (prefix_of id) b.running_commands) b)
      ∙ forget_all-insert id stopped b.sandboxes
      ∙ sym (mock-stop uuid id blocking (mock_of b) (forget s) there))

  update_network_policy-Agrees :
      (id : SandboxId) (policy : NetworkPolicy IpNet) (b : LocalBackend IpNet C H)
      → Agrees (Call.update_network_policy id policy) b
  unfolding perform failure local_backend Backend.update_network_policy
  update_network_policy-Agrees id policy b = sandbox_of-Follows id _ b _ (λ s there.
      forget_all-insert id (record s { config = record s.config { network_policy = policy } })
        b.sandboxes
      ∙ sym (mock-update_network_policy uuid id policy (mock_of b) (forget s) there))

  -- The table of the local backend, without the directories, is after every call, on any host, what
  -- the mock backend makes of it by the same call, or what it was before if the call failed.
  pub perform-local_backend-mock :
      (call : Call IpNet) (b : LocalBackend IpNet C H)
      → forget_all (perform (local_backend os) call b).sandboxes
        ≡ either
            (failure (local_backend os) call b)
            (perform (mock_backend uuid) call (mock_of b)).sandboxes
            (forget_all b.sandboxes)
  unfolding perform failure local_backend mock_backend Backend.status Backend.if_present
  perform-local_backend-mock (Call.create id config) b = create-Agrees id config b
  perform-local_backend-mock (Call.start id) b = start-Agrees id b
  perform-local_backend-mock (Call.stop id blocking) b = stop-Agrees id blocking b
  perform-local_backend-mock (Call.status id) b =
      Quiet-Follows (Backend.status id) b _ (search local_rules) refl
  perform-local_backend-mock (Call.exec id cmd) b =
      Quiet-Follows (exec os id cmd) b _ (exec-Quiet os id cmd) (mock-exec uuid id cmd (mock_of b))
  perform-local_backend-mock (Call.kill_command id cmd_id signal) b =
      Quiet-Follows (kill_command os id cmd_id signal) b _ (kill_command-Quiet os id cmd_id signal)
        refl
  perform-local_backend-mock (Call.write_file id path content) b =
      Quiet-Follows (write_file os id path content) b _ (write_file-Quiet os id path content) refl
  perform-local_backend-mock (Call.read_file id path) b =
      Quiet-Follows (read_file os id path) b _ (read_file-Quiet os id path) refl
  perform-local_backend-mock (Call.mkdir id path) b =
      Quiet-Follows (mkdir os id path) b _ (mkdir-Quiet os id path) refl
  perform-local_backend-mock (Call.update_network_policy id policy) b =
      update_network_policy-Agrees id policy b
  perform-local_backend-mock (Call.snapshot_create id) b =
      Quiet-Follows (Backend.snapshot_create os id) b _ (snapshot_create-Quiet os id)
        (mock-snapshot_create uuid id (mock_of b))
  perform-local_backend-mock (Call.snapshot_restore id snap) b =
      Quiet-Follows (Backend.if_present id tt) b _ (search local_rules) refl
  perform-local_backend-mock (Call.metrics id) b =
      Quiet-Follows (Backend.if_present id Command.default) b _ (search local_rules) refl
