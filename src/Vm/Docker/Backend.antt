-- ===== src/Vm/Docker/Backend.antt =====
-- `impl VmBackend` of crates/rustbox-vm/src/docker/backend.rs: the status, network policies and
-- snapshots, and the methods of Lifecycle and Agents.
pub mod Sound
pub mod History
pub mod Failures
pub mod Isolation
use rustbox.Prelude.{
  ℕ, Text, codes, ◌++◌, Bool, true, false, Option, none, some, ok, err, Exec, ◌>>=◌, ◌>>◌, lift,
  mapping_err,
}
use rustbox.Core.Network.{NetworkPolicy}
use rustbox.Core.Sandbox.{SandboxId, SnapshotId, SandboxStatus}
use rustbox.Core.Error.{RustboxError}
use rustbox.Core.Backend.{VmBackend}
use rustbox.Network.Proxy.{needs_domain_proxy}
use rustbox.Vm.CaTrust.{install_ca_cert, write_proxy_env, remove_proxy_env}
use rustbox.Vm.Docker.Engine.{Engine}
use rustbox.Vm.Docker.Network.{create_sandbox_network, apply_iptables, remove_iptables}
use rustbox.Vm.Docker.Containers.{
  DockerBackendConfig, DockerInstance, DockerBackend, failed, container_config, container_name,
  local_agent, get_mapped_port, wait_for_agent,
}
use rustbox.Vm.Docker.Instances.{
  Method, on_host, effect, instance_of, running_instance, write, agent_client_for,
}
use rustbox.Vm.Docker.Agents
use rustbox.Vm.Docker.Lifecycle
use rustbox.Vm.Docker.Lifecycle.{launch_proxy, enforce, drop_proxy, trust_proxy, tear_down}

-- The repository of a sandbox's snapshots, and the image of one.
abbrev snapshot_repo : SandboxId → Text
snapshot_repo id = codes "rustbox-snap-" ++ id

abbrev snapshot_image : SandboxId → SnapshotId → Text
snapshot_image id snap = snapshot_repo id ++ codes ":" ++ snap

module _ {IpNet X : Type 0} where
  -- The instance that runs in the new container.
  abbrev pub restored :
      DockerInstance IpNet X → Text → ℕ → Text → (Text × Option X) → DockerInstance IpNet X
  restored inst container_id host_port net_name (ip, proxy) = record inst {
    container_id = container_id;
    agent_host_port = host_port;
    status = SandboxStatus.running;
    network_name = some net_name;
    container_ip = some ip;
    proxy = proxy;
  }

module _ {IpNet X H : Type 0} (engine : Engine IpNet X H) where
  unfoldable pub status : SandboxId → Method IpNet X H SandboxStatus
  status id = do inst ← instance_of id; lift (ok inst.status)

  -- The rules are made anew for the policy where the address is known.
  unfoldable pub replace_rules : Option Text → NetworkPolicy IpNet → Exec H RustboxError (Unit {0})
  replace_rules none policy h = (ok tt, h)
  replace_rules (some ip) policy h =
      apply_iptables engine.iptables engine.show ip policy (remove_iptables engine.iptables ip h).1

  -- The guest is told about a new proxy, with the usual gateway where the address is known.
  trust_new : DockerInstance IpNet X → Option X → H → H
  trust_new inst none h = h
  trust_new inst (some proxy) h =
      let h' = install_ca_cert engine.sockets (agent_client_for inst) (engine.cert_pem proxy) h in
      elim inst.container_ip [
        | none ↦ h'
        | some ip ↦
            write_proxy_env engine.sockets (agent_client_for inst) (codes "172.17.0.1")
              (engine.port proxy) h'
      ]

  -- The proxy for the policy, by whether one is needed and whether one runs.
  change_proxy :
      Bool
      → Option X
      → DockerInstance IpNet X
      → NetworkPolicy IpNet
      → Exec H RustboxError (Option X)
  unfolding trust_new
  change_proxy true (some proxy) inst policy h =
      (ok (some proxy), engine.update_policy proxy policy h)
  change_proxy true none inst policy h =
      (do proxy ← launch_proxy engine true policy; λ h'. (ok proxy, trust_new inst proxy h')) h
  change_proxy false (some proxy) inst policy h =
      (ok none, engine.stop_proxy proxy (remove_proxy_env engine.sockets (agent_client_for inst) h))
  change_proxy false none inst policy h = (ok none, h)

  unfoldable pub update_network_policy :
      SandboxId → NetworkPolicy IpNet → Method IpNet X H (Unit {0})
  unfolding replace_rules change_proxy
  update_network_policy id policy = do
    inst ← instance_of id
    on_host (replace_rules inst.container_ip policy)
    proxy ← on_host (change_proxy (needs_domain_proxy policy) inst.proxy inst policy)
    write id
        (record inst { proxy = proxy; config = record inst.config { network_policy = policy } })

  unfoldable pub snapshot_create : SandboxId → Method IpNet X H SnapshotId
  snapshot_create id = do
    inst ← running_instance id
    snap_id ← on_host (λ h. let (snap_id, h') = engine.new_id h in (ok snap_id, h'))
    on_host (
        mapping_err (failed (codes "commit container: "))
          (engine.docker.commit_container inst.container_id (snapshot_repo id) snap_id))
    lift (ok snap_id)

  unfoldable pub snapshot_restore : SandboxId → SnapshotId → Method IpNet X H (Unit {0})
  snapshot_restore id snap = do
    inst ← instance_of id
    effect (tear_down engine 5 id inst)
    net_name ← on_host (create_sandbox_network engine.docker id inst.config.network_policy)
    on_host (
        mapping_err (λ e. RustboxError.snapshot_not_found snap)
          (engine.docker.inspect_image (snapshot_image id snap)))
    container_id ← on_host (
        mapping_err (failed (codes "create restored container: ")) (
          engine.docker.create_container (container_name id)
            (container_config id inst.config (snapshot_image id snap) net_name)))
    on_host (
        mapping_err (failed (codes "start restored container: "))
          (engine.docker.start_container container_id))
    host_port ← on_host (get_mapped_port engine container_id)
    on_host (wait_for_agent engine host_port 30)
    found ← on_host (enforce engine container_id net_name inst.config.network_policy)
    effect (drop_proxy engine inst.proxy)
    write id (restored inst container_id host_port net_name found)
    effect (trust_proxy engine container_id host_port found.1)

module _ {IpNet X H : Type 0} (engine : Engine IpNet X H) (config : DockerBackendConfig) where
  -- `impl VmBackend for DockerBackend`
  unfoldable pub docker_backend : VmBackend IpNet (DockerBackend IpNet X H)
  docker_backend = record {
    create = Lifecycle.create engine config;
    start = Lifecycle.start engine;
    stop = Lifecycle.stop engine;
    status = status engine;
    exec = Agents.exec engine;
    kill_command = Agents.kill_command engine;
    write_file = Agents.write_file engine;
    read_file = Agents.read_file engine;
    mkdir = Agents.mkdir engine;
    update_network_policy = update_network_policy engine;
    snapshot_create = snapshot_create engine;
    snapshot_restore = snapshot_restore engine;
    metrics = Agents.metrics engine;
  }
