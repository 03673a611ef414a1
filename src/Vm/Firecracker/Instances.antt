-- ===== src/Vm/Firecracker/Instances.antt =====
-- The state of crates/rustbox-vm/src/firecracker/backend.rs and the ways in which its methods reach
-- the table of instances and the host.
use rustbox.Prelude.{
  ℕ, Text, Bool, true, false, Option, none, some, Result, ok, err, Exec, ◌>>=◌, lift,
}
use rustbox.Prelude.Dict
use rustbox.Prelude.Dict.{Dict}
use rustbox.Core.Sandbox.{SandboxId, SandboxStatus, SandboxConfig}
use rustbox.Core.Error.{RustboxError}
use rustbox.Vm.AgentClient.{AgentTransport}
use rustbox.Vm.Firecracker.Process.{FirecrackerProcess}

pub record FirecrackerBackendConfig : Type 0 where
  pub firecracker_bin : Text
  pub kernel_path : Text
  pub rootfs_dir : Text
  pub state_dir : Text
  pub vsock_base_dir : Text

pub record VmInstance (IpNet C X : Type 0) : Type 0 where
  pub config : SandboxConfig IpNet
  pub status : SandboxStatus
  pub process : Option (FirecrackerProcess C)
  pub socket_path : Text
  pub vsock_path : Text
  pub guest_cid : ℕ
  pub tap_name : Option Text
  pub nft_table : Option Text
  pub proxy : Option X

pub record FirecrackerBackend (IpNet C X H : Type 0) : Type 0 where
  pub instances : Dict (VmInstance IpNet C X)
  pub next_cid : ℕ
  pub host : H

abbrev pub is_running : SandboxStatus → Bool
is_running SandboxStatus.running = true
is_running _ = false

abbrev pub Method : (IpNet C X H A : Type 0) → Type 0
Method IpNet C X H A = Exec (FirecrackerBackend IpNet C X H) RustboxError A

module _ {IpNet C X : Type 0} where
  abbrev pub found :
      SandboxId → Option (VmInstance IpNet C X) → Result RustboxError (VmInstance IpNet C X)
  found id none = err (RustboxError.sandbox_not_found id)
  found id (some inst) = ok inst

  abbrev pub running_only :
      SandboxId → VmInstance IpNet C X → Result RustboxError (VmInstance IpNet C X)
  running_only id inst = elim (is_running inst.status) [
    | true ↦ ok inst
    | false ↦ err (RustboxError.sandbox_not_running id)
  ]

  -- `agent_client_for`
  abbrev pub agent_client_for : VmInstance IpNet C X → AgentTransport
  agent_client_for inst = AgentTransport.vsock inst.vsock_path 5123

module _ {IpNet C X H : Type 0} where
  -- A call of the host.
  abbrev pub on_host : {A : Type 0} → Exec H RustboxError A → Method IpNet C X H A
  on_host m b = let (r, h) = m b.host in (r, record b { host = h })

  -- One without a result.
  abbrev pub effect : (H → H) → Method IpNet C X H (Unit {0})
  effect f b = (ok tt, record b { host = f b.host })

  -- `let _ = ...`
  abbrev pub ignoring : {A : Type 0} → Exec H RustboxError A → Method IpNet C X H (Unit {0})
  ignoring m b = (ok tt, record b { host = (m b.host).1 })

  -- What goes out of scope where the rest fails.
  abbrev pub or_drop : {A : Type 0} → (H → H) → Method IpNet C X H A → Method IpNet C X H A
  or_drop discard m b =
      let (r, b') = m b in
      elim r [ ok a ↦ (ok a, b') | err e ↦ (err e, record b' { host = discard b'.host }) ]

  -- `instances.get(&key).ok_or_else(...)`
  abbrev pub instance_of : SandboxId → Method IpNet C X H (VmInstance IpNet C X)
  instance_of id b = (found id (Dict.get id b.instances), b)

  -- The same, and the test of the status behind it.
  abbrev pub running_instance : SandboxId → Method IpNet C X H (VmInstance IpNet C X)
  running_instance id = instance_of id >>= λ inst. lift (running_only id inst)

  -- A write through `get_mut`
  abbrev pub write : SandboxId → VmInstance IpNet C X → Method IpNet C X H (Unit {0})
  write id inst b = (ok tt, record b { instances = Dict.insert id inst b.instances })
