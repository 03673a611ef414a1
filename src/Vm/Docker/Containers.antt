-- ===== src/Vm/Docker/Containers.antt =====
-- The state of crates/rustbox-vm/src/docker/backend.rs, images.rs, and what its methods read of a
-- container and wait for.
pub mod Ends
use rustbox.Prelude.{
  ℕ, zero, suc, ◌+◌, ◌*◌, Text, codes, List, [], ◌∷◌, ◌++◌, map, Bool, true, false, Option, none,
  some, Result, ok, err, and_then, ok_or, Exec, ◌>>=◌, lift, mapping_err, leb, ltb, if◌then◌else◌,
}
use rustbox.Prelude.Dict
use rustbox.Prelude.Dict.{Dict}
use rustbox.Core.Sandbox.{SandboxId, SandboxStatus, SandboxConfig, Runtime, CpuCount}
use rustbox.Core.Error.{RustboxError}
use rustbox.Core.Protocol.{AgentRequest, AgentResponse}
use rustbox.Network.Proxy.Request.{decimal, parse_u16}
use rustbox.Vm.AgentClient.{AgentTransport, ask}
use rustbox.Vm.Docker.Engine.{Engine, PortBinding, PortMap, Endpoint, NetworkSettings, Config}

pub record DockerBackendConfig : Type 0 where
  pub docker_host : Option Text
  pub image_prefix : Text

pub record DockerInstance (IpNet X : Type 0) : Type 0 where
  pub config : SandboxConfig IpNet
  pub status : SandboxStatus
  pub container_id : Text
  pub agent_host_port : ℕ
  pub network_name : Option Text
  pub container_ip : Option Text
  pub proxy : Option X

pub record DockerBackend (IpNet X H : Type 0) : Type 0 where
  pub instances : Dict (DockerInstance IpNet X)
  pub host : H

abbrev pub failed : Text → Text → RustboxError
failed what e = RustboxError.vm_backend (what ++ e)

abbrev tag_of : Runtime → Text
tag_of Runtime.node24 = codes "node24"
tag_of Runtime.node22 = codes "node22"
tag_of Runtime.python313 = codes "python313"

abbrev pub image_for_runtime : Runtime → Text → Text
image_for_runtime runtime prefix = prefix ++ codes "-" ++ tag_of runtime ++ codes ":latest"

-- `cpu_count as u64`
abbrev cpus_of : CpuCount → ℕ
cpus_of CpuCount.one = 1
cpus_of CpuCount.two = 2
cpus_of CpuCount.four = 4
cpus_of CpuCount.eight = 8

-- 256 MiB for each processor, at least 512, in bytes
abbrev memory_of : ℕ → ℕ
memory_of cpu_count = (if ltb (cpu_count * 256) 512 then 512 else cpu_count * 256) * 1024 * 1024

-- The container of a sandbox, made from an image in a network.
unfoldable pub container_config :
    {IpNet : Type 0} → SandboxId → SandboxConfig IpNet → Text → Text → Config
container_config id config image net_name = record {
  image = image;
  env = map (λ (k, v). k ++ codes "=" ++ v) config.env ++ codes "RUSTBOX_AGENT_PORT=5123" ∷ [];
  exposed_ports = codes "5123/tcp" ∷ [];
  labels =
      Dict.insert (codes "rustbox.sandbox_id") id
        (Dict.insert (codes "rustbox.managed") (codes "true") []);
  host_config = record {
    nano_cpus = cpus_of config.cpu_count * 1_000_000_000;
    memory = memory_of (cpus_of config.cpu_count);
    port_bindings =
        Dict.insert (codes "5123/tcp")
          (some (record { host_ip = some (codes "127.0.0.1"); host_port = some (codes "0") } ∷ []))
          [];
    network_mode = net_name;
  };
  entrypoint = codes "/usr/bin/rustbox-agent" ∷ [];
}

abbrev pub container_name : SandboxId → Text
container_name id = codes "rustbox-" ++ id

-- The port on the host to which the agent's is mapped.
unfoldable pub mapped_port : Option NetworkSettings → Result RustboxError ℕ
mapped_port settings =
    and_then (ok_or (ports_of settings) (RustboxError.vm_backend (codes "no port mappings found")))
      (λ ports.
        and_then
          (ok_or (bindings_in (Dict.get (codes "5123/tcp") ports))
            (RustboxError.vm_backend (codes "no binding for 5123/tcp")))
          (λ bindings.
            and_then
              (ok_or (first bindings) (RustboxError.vm_backend (codes "empty port binding list")))
              (λ binding.
                ok_or (port_of binding) (RustboxError.vm_backend (codes "invalid host port")))))
  where
    ports_of : Option NetworkSettings → Option PortMap
    ports_of none = none
    ports_of (some ns) = ns.ports

    bindings_in : Option (Option (List PortBinding)) → Option (List PortBinding)
    bindings_in none = none
    bindings_in (some b) = b

    first : List PortBinding → Option PortBinding
    first [] = none
    first (binding ∷ bindings) = some binding

    port_of : PortBinding → Option ℕ
    port_of binding = elim binding.host_port [ none ↦ none | some p ↦ parse_u16 p ]

-- `filter(|s| !s.is_empty())`
abbrev unless_empty : Option Text → Option Text
unless_empty none = none
unless_empty (some []) = none
unless_empty (some (b ∷ s)) = some (b ∷ s)

-- The networks of a container that was inspected.
abbrev networks_of : Option NetworkSettings → Dict Endpoint
networks_of none = []
networks_of (some ns) = elim ns.networks [ none ↦ [] | some nets ↦ nets ]

abbrev address_in : Text → Dict Endpoint → Option Text
address_in net_name nets = elim (Dict.get net_name nets) [
  | none ↦ none
  | some net ↦ unless_empty net.ip_address
]

-- The gateway of the first network.
abbrev gateway_in : Dict Endpoint → Option Text
gateway_in [] = none
gateway_in ((name, net) ∷ nets) = unless_empty net.gateway

-- `AgentClient::new_tcp` at a port of the host
abbrev pub local_agent : ℕ → AgentTransport
local_agent port = AgentTransport.tcp (codes "127.0.0.1") port

module _ {IpNet X H : Type 0} (engine : Engine IpNet X H) where
  unfoldable pub get_mapped_port : Text → Exec H RustboxError ℕ
  unfolding mapped_port
  get_mapped_port container_id = do
    info ←
        mapping_err (failed (codes "inspect container: "))
          (engine.docker.inspect_container container_id)
    lift (mapped_port info)

  unfoldable pub get_container_ip : Text → Text → Exec H RustboxError Text
  get_container_ip container_id net_name = do
    info ←
        mapping_err (failed (codes "inspect container for IP: "))
          (engine.docker.inspect_container container_id)
    lift (
        ok_or (address_in net_name (networks_of info)) (
          RustboxError.vm_backend (
            codes "no IP address for container "
            ++ container_id
            ++ codes " on network "
            ++ net_name)))

  unfoldable pub get_network_gateway : Text → H → Option Text × H
  get_network_gateway container_id h =
      let (inspected, h') = engine.docker.inspect_container container_id h in
      (elim inspected [ err e ↦ none | ok info ↦ gateway_in (networks_of info) ], h')

  -- Whether the agent answered a ping.
  abbrev pub is_pong : Result RustboxError AgentResponse → Bool
  is_pong (ok AgentResponse.pong) = true
  is_pong _ = false

  abbrev pub late : ℕ → ℕ → RustboxError
  late port timeout_secs = RustboxError.timeout (
      codes "agent did not respond on 127.0.0.1:"
      ++ decimal port
      ++ codes " within "
      ++ decimal timeout_secs
      ++ codes "s")

  -- The loop until the agent answers or the deadline is over. The end of the fuel is the timeout.
  unfoldable pub poll : ℕ → ℕ → ℕ → ℕ → Exec H RustboxError (Unit {0})
  poll zero port timeout_secs deadline h = (err (late port timeout_secs), h)
  poll (suc fuel) port timeout_secs deadline h =
      let (response, h') = ask engine.sockets (local_agent port) AgentRequest.ping h in
      let later = poll fuel port timeout_secs deadline (engine.sleep 100 h') in
      if leb deadline (engine.now h)
      then (err (late port timeout_secs), h)
      else if is_pong response
      then (ok tt, h')
      else later

  -- Each round sleeps for 100 milliseconds, so that 10 in a second are enough.
  unfoldable pub wait_for_agent : ℕ → ℕ → Exec H RustboxError (Unit {0})
  unfolding poll
  wait_for_agent port timeout_secs h =
      poll (timeout_secs * 10) port timeout_secs (engine.now h + timeout_secs * 1000) h
