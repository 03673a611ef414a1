-- ===== src/Vm/Docker/Backend/Isolation.antt =====
-- What a call of crates/rustbox-vm/src/docker/backend.rs leaves of the other sandboxes.
use rustbox.Prelude.{Option, Result, Exec, ◌>>=◌, lift, ◌≡◌, ◌≢◌, ◌∙◌}
use rustbox.Prelude.Dict
use rustbox.Prelude.Dict.{get-insert_ne}
use rustbox.Prelude.Keeps.{Keeps, keeps_rules}
use rustbox.Core.Sandbox.{SandboxId}
use rustbox.Core.Protocol.{AgentRequest, AgentResponse}
use rustbox.Core.Error.{RustboxError}
use rustbox.Core.Backend.Calls.{Call, target, perform, AllKeep, perform-AllKeep}
use rustbox.Vm.Docker.Engine.{Engine}
use rustbox.Vm.Docker.Containers.{DockerBackendConfig, DockerInstance, DockerBackend}
use rustbox.Vm.Docker.Instances.{on_host, effect, instance_of, write}
use rustbox.Vm.Docker.Lifecycle
use rustbox.Vm.Docker.Agents
use rustbox.Vm.Docker.Backend
use rustbox.Vm.Docker.Backend.{docker_backend}

module _ {IpNet X H : Type 0} (other : SandboxId) (entry : Option (DockerInstance IpNet X)) where
  HasEntry : DockerBackend IpNet X H → Type 0
  HasEntry b = Dict.get other b.instances ≡ entry

  on_host-HasEntry : {A : Type 0} (m : Exec H RustboxError A) → Keeps HasEntry (on_host m)
  unfolding HasEntry
  on_host-HasEntry m = record { after = λ b h. h }

  effect-HasEntry : (f : H → H) → Keeps HasEntry (effect f)
  unfolding HasEntry
  effect-HasEntry f = record { after = λ b h. h }

  instance_of-HasEntry : (id : SandboxId) → Keeps HasEntry (instance_of id)
  unfolding HasEntry
  instance_of-HasEntry id = record { after = λ b h. h }

  write-HasEntry :
      (id : SandboxId) (inst : DockerInstance IpNet X) → id ≢ other → Keeps HasEntry (write id inst)
  unfolding HasEntry
  write-HasEntry id inst ne = record {
    after = λ b h. get-insert_ne id other inst b.instances ne ∙ h;
  }

ruleset other_rules =
    (keeps_rules, on_host-HasEntry, effect-HasEntry, instance_of-HasEntry, write-HasEntry)

module _ {IpNet X H : Type 0} (engine : Engine IpNet X H) (config : DockerBackendConfig)
    (other : SandboxId) (entry : Option (DockerInstance IpNet X)) where
  answered-HasEntry :
      {A : Type 0} (id : SandboxId) (request : AgentRequest)
      (f : AgentResponse → Result RustboxError A)
      → Keeps (HasEntry other entry) (Agents.ask_agent engine id request >>= λ resp. lift (f resp))
  unfolding Agents.ask_agent
  answered-HasEntry id request f = search other_rules depth 9

  docker_backend-HasEntry :
      AllKeep (docker_backend engine config) (λ id. id ≢ other) (HasEntry other entry)
  unfolding docker_backend Lifecycle.create Lifecycle.start Lifecycle.stop Backend.status
      Agents.exec Agents.kill_command Agents.write_file Agents.read_file Agents.mkdir Agents.metrics
      Backend.update_network_policy Backend.snapshot_create Backend.snapshot_restore
  docker_backend-HasEntry = record {
    create = λ id c ne. search other_rules depth 9;
    start = λ id ne. search other_rules depth 12;
    stop = λ id blocking ne. search other_rules depth 9;
    status = λ id ne. search other_rules;
    exec = λ id cmd ne. search other_rules depth 9;
    kill_command = λ id cmd_id signal ne. answered-HasEntry id _ _;
    write_file = λ id path content ne. answered-HasEntry id _ _;
    read_file = λ id path ne. answered-HasEntry id _ _;
    mkdir = λ id path ne. answered-HasEntry id _ _;
    update_network_policy = λ id policy ne. search other_rules depth 9;
    snapshot_create = λ id ne. search other_rules depth 9;
    snapshot_restore = λ id snap ne. search other_rules depth 16;
    metrics = λ id ne. answered-HasEntry id _ _;
  }

  -- A call about one sandbox, on any host, leaves the entry of every other sandbox as it was.
  pub perform-docker_backend-other :
      (call : Call IpNet) (b : DockerBackend IpNet X H)
      → target call ≢ other
      → Dict.get other b.instances ≡ entry
      → Dict.get other (perform (docker_backend engine config) call b).instances ≡ entry
  unfolding HasEntry
  perform-docker_backend-other call b ne there =
      perform-AllKeep (docker_backend engine config) docker_backend-HasEntry call b ne there
