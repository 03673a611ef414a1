-- ===== src/Vm/Docker/Instances.antt =====
-- The ways in which the methods of crates/rustbox-vm/src/docker/backend.rs reach the table of
-- instances and the host.
use rustbox.Prelude.{Bool, true, false, Option, none, some, Result, ok, err, Exec, ◌>>=◌, lift}
use rustbox.Prelude.Dict
use rustbox.Core.Sandbox.{SandboxId, SandboxStatus}
use rustbox.Core.Error.{RustboxError}
use rustbox.Vm.AgentClient.{AgentTransport}
use rustbox.Vm.Docker.Containers.{DockerInstance, DockerBackend, local_agent}

abbrev pub is_running : SandboxStatus → Bool
is_running SandboxStatus.running = true
is_running _ = false

abbrev pub Method : (IpNet X H A : Type 0) → Type 0
Method IpNet X H A = Exec (DockerBackend IpNet X H) RustboxError A

module _ {IpNet X : Type 0} where
  abbrev pub found :
      SandboxId → Option (DockerInstance IpNet X) → Result RustboxError (DockerInstance IpNet X)
  found id none = err (RustboxError.sandbox_not_found id)
  found id (some inst) = ok inst

  abbrev pub running_only :
      SandboxId → DockerInstance IpNet X → Result RustboxError (DockerInstance IpNet X)
  running_only id inst = elim (is_running inst.status) [
    | true ↦ ok inst
    | false ↦ err (RustboxError.sandbox_not_running id)
  ]

  abbrev pub agent_client_for : DockerInstance IpNet X → AgentTransport
  agent_client_for inst = local_agent inst.agent_host_port

module _ {IpNet X H : Type 0} where
  -- A call of the host.
  abbrev pub on_host : {A : Type 0} → Exec H RustboxError A → Method IpNet X H A
  on_host m b = let (r, h) = m b.host in (r, record b { host = h })

  -- One without a result.
  abbrev pub effect : (H → H) → Method IpNet X H (Unit {0})
  effect f b = (ok tt, record b { host = f b.host })

  -- `instances.get(&key).ok_or_else(...)`
  abbrev pub instance_of : SandboxId → Method IpNet X H (DockerInstance IpNet X)
  instance_of id b = (found id (Dict.get id b.instances), b)

  -- The same, and the test of the status behind it.
  abbrev pub running_instance : SandboxId → Method IpNet X H (DockerInstance IpNet X)
  running_instance id = instance_of id >>= λ inst. lift (running_only id inst)

  -- A write through `get_mut`
  abbrev pub write : SandboxId → DockerInstance IpNet X → Method IpNet X H (Unit {0})
  write id inst b = (ok tt, record b { instances = Dict.insert id inst b.instances })
