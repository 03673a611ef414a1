-- ===== src/Vm/Docker/Backend/Failures.antt =====
-- What a call of crates/rustbox-vm/src/docker/backend.rs that fails leaves of the table.
use rustbox.Prelude.{Text, List, some, Result, Exec, ◌>>=◌, lift, ◌≡◌, refl}
use rustbox.Prelude.Atomic.{Quiet, Atomic, Sure, atomic_rules}
use rustbox.Core.Sandbox.{SandboxId}
use rustbox.Core.Protocol.{AgentRequest, AgentResponse}
use rustbox.Core.Error.{RustboxError}
use rustbox.Core.Backend.Calls.{Call, failure, perform, AllMethods, perform-Atomic}
use rustbox.Vm.Docker.Engine.{Engine}
use rustbox.Vm.Docker.Containers.{DockerBackendConfig, DockerInstance, DockerBackend}
use rustbox.Vm.Docker.Instances.{on_host, effect, instance_of, write}
use rustbox.Vm.Docker.Lifecycle
use rustbox.Vm.Docker.Agents
use rustbox.Vm.Docker.Backend
use rustbox.Vm.Docker.Backend.{docker_backend}

module _ {IpNet X H : Type 0} where
  abbrev table : DockerBackend IpNet X H → List (Text × DockerInstance IpNet X)
  table b = b.instances

  on_host-Quiet : {A : Type 0} (m : Exec H RustboxError A) → Quiet table (on_host m)
  on_host-Quiet m = record { same = λ b. refl }

  effect-Quiet : (f : H → H) → Quiet table (effect f)
  effect-Quiet f = record { same = λ b. refl }

  instance_of-Quiet : (id : SandboxId) → Quiet table (instance_of id)
  instance_of-Quiet id = record { same = λ b. refl }

  effect-Sure : (f : H → H) → Sure (effect {IpNet = IpNet} {X = X} f)
  effect-Sure f = record { succeeds = λ b. (tt, refl) }

  write-Sure : (id : SandboxId) (inst : DockerInstance IpNet X) → Sure (write {H = H} id inst)
  write-Sure id inst = record { succeeds = λ b. (tt, refl) }

ruleset failure_rules =
    (atomic_rules, on_host-Quiet, effect-Quiet, instance_of-Quiet, effect-Sure, write-Sure)

module _ {IpNet X H : Type 0} (engine : Engine IpNet X H) (config : DockerBackendConfig) where
  answered-Atomic :
      {A : Type 0} (id : SandboxId) (request : AgentRequest)
      (f : AgentResponse → Result RustboxError A)
      → Atomic table (Agents.ask_agent engine id request >>= λ resp. lift (f resp))
  unfolding Agents.ask_agent
  answered-Atomic id request f = search failure_rules depth 9

  docker_backend-Atomic :
      AllMethods (docker_backend engine config) (λ id. Unit {0}) (λ A m. Atomic table m)
  unfolding docker_backend Lifecycle.create Lifecycle.start Lifecycle.stop Backend.status
      Agents.exec Agents.kill_command Agents.write_file Agents.read_file Agents.mkdir Agents.metrics
      Backend.update_network_policy Backend.snapshot_create Backend.snapshot_restore
  docker_backend-Atomic = record {
    create = λ id c q. search failure_rules depth 9;
    start = λ id q. search failure_rules depth 12;
    stop = λ id blocking q. search failure_rules depth 9;
    status = λ id q. search failure_rules;
    exec = λ id cmd q. search failure_rules depth 9;
    kill_command = λ id cmd_id signal q. answered-Atomic id _ _;
    write_file = λ id path content q. answered-Atomic id _ _;
    read_file = λ id path q. answered-Atomic id _ _;
    mkdir = λ id path q. answered-Atomic id _ _;
    update_network_policy = λ id policy q. search failure_rules depth 9;
    snapshot_create = λ id q. search failure_rules depth 9;
    snapshot_restore = λ id snap q. search failure_rules depth 16 fits 6000;
    metrics = λ id q. answered-Atomic id _ _;
  }

  -- A call that fails, on any host and for whatever reason, leaves the table of instances as it was:
  -- the status, the container, the address, the policy and the proxy of every sandbox.
  pub docker_backend-unchanged :
      (call : Call IpNet) (b : DockerBackend IpNet X H) (e : RustboxError)
      → failure (docker_backend engine config) call b ≡ some e
      → (perform (docker_backend engine config) call b).instances ≡ b.instances
  docker_backend-unchanged call b e failed =
      perform-Atomic (docker_backend engine config) table docker_backend-Atomic call b e tt failed
