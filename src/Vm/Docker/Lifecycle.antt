-- ===== src/Vm/Docker/Lifecycle.antt =====
-- `new`, `create`, `start` and `stop` of crates/rustbox-vm/src/docker/backend.rs, as compiled for
-- Linux. The identifier of a sandbox that is created is a new one.
use rustbox.Prelude.{
  ℕ, Text, codes, List, [], ◌∷◌, ◌++◌, Bool, true, false, Option, none, some, Result, ok, err, Exec,
  ◌>>=◌, ◌>>◌, lift, mapping_err, if◌then◌else◌,
}
use rustbox.Core.Network.{NetworkPolicy}
use rustbox.Core.Sandbox.{SandboxId, SandboxStatus, SandboxConfig}
use rustbox.Core.Error.{RustboxError}
use rustbox.Network.Proxy.{needs_domain_proxy}
use rustbox.Network.Redirect.{contains}
use rustbox.Vm.CaTrust.{install_ca_cert, write_proxy_env}
use rustbox.Vm.Docker.Engine.{Engine}
use rustbox.Vm.Docker.Network.{
  create_sandbox_network, remove_sandbox_network, cleanup_orphaned_networks, apply_iptables,
  remove_iptables,
}
use rustbox.Vm.Docker.Containers.{
  DockerBackendConfig, DockerInstance, DockerBackend, failed, image_for_runtime, container_config,
  container_name, local_agent, get_mapped_port, get_container_ip, get_network_gateway,
  wait_for_agent,
}
use rustbox.Vm.Docker.Instances.{Method, on_host, effect, instance_of, running_instance, write}

module _ {IpNet X H : Type 0} (engine : Engine IpNet X H) where
  -- The loop over the listed containers; an error is only logged.
  remove_containers : List (Option Text) → H → H
  remove_containers [] h = h
  remove_containers (none ∷ ids) h = remove_containers ids h
  remove_containers (some id ∷ ids) h =
      remove_containers ids (engine.docker.remove_container id true h).1

  cleanup_orphaned_containers : H → H
  unfolding remove_containers
  cleanup_orphaned_containers h =
      let (listed, h') =
        engine.docker.list_containers (codes "rustbox.managed")
          (codes "exited" ∷ codes "dead" ∷ codes "created" ∷ []) h in
      elim listed [ err e ↦ h' | ok ids ↦ remove_containers ids h' ]

  abbrev connect_failed : Option Text → Text → RustboxError
  connect_failed none = failed (codes "connect to Docker: ")
  connect_failed (some host) = failed (codes "connect to Docker at " ++ host ++ codes ": ")

  -- `DockerBackend::new`
  unfoldable pub new : DockerBackendConfig → Exec H RustboxError (DockerBackend IpNet X H)
  unfolding cleanup_orphaned_containers
  new config = do
    mapping_err (connect_failed config.docker_host) (engine.docker.connect config.docker_host)
    mapping_err (failed (codes "Docker ping failed: ")) engine.docker.ping
    λ h.
        let h' = cleanup_orphaned_networks engine.docker (cleanup_orphaned_containers h) in
        (ok (record { instances = []; host = h' }), h')

  -- What a pull yields, up to its first error.
  first_error : List (Result Text (Unit {0})) → Result Text (Unit {0})
  first_error [] = ok tt
  first_error (err e ∷ results) = err e
  first_error (ok _ ∷ results) = first_error results

  pull_image : Text → Exec H RustboxError (Unit {0})
  unfolding first_error
  pull_image image h =
      let (results, h') = engine.docker.create_image image h in
      mapping_err (failed (codes "pull image " ++ image ++ codes ": ")) (lift (first_error results))
        h'

  -- With the bytes of a dash
  not_built : Text → RustboxError
  not_built image = RustboxError.vm_backend (
      codes "image "
      ++ image
      ++ codes " not found locally "
      ++ (226 ∷ 128 ∷ 148 ∷ [])
      ++ codes " build it with: docker build -t "
      ++ image
      ++ codes " images/<runtime>/")

  -- An image that is missing is pulled if its name refers to a registry.
  unfoldable pub ensure_image : Text → Exec H RustboxError (Unit {0})
  unfolding pull_image not_built
  ensure_image image h =
      let (inspected, h') = engine.docker.inspect_image image h in
      let pulled = pull_image image h' in
      elim inspected [
        | ok _ ↦ (ok tt, h')
        | err e ↦ if contains (codes "/") image then pulled else (err (not_built image), h')
      ]

  unfoldable pub create :
      DockerBackendConfig → SandboxId → SandboxConfig IpNet → Method IpNet X H (Unit {0})
  create config id c = do
    on_host (ensure_image (image_for_runtime c.runtime config.image_prefix))
    net_name ← on_host (create_sandbox_network engine.docker id c.network_policy)
    container_id ← on_host (
        mapping_err (failed (codes "create container: ")) (
          engine.docker.create_container (container_name id)
            (container_config id c (image_for_runtime c.runtime config.image_prefix) net_name)))
    write id (record {
      config = c;
      status = SandboxStatus.pending;
      container_id = container_id;
      agent_host_port = 0;
      network_name = some net_name;
      container_ip = none;
      proxy = none;
    })

  -- A proxy for the policy, if one is needed.
  unfoldable pub launch_proxy : Bool → NetworkPolicy IpNet → Exec H RustboxError (Option X)
  launch_proxy false policy h = (ok none, h)
  launch_proxy true policy h =
      (do
        cert ← mapping_err (failed (codes "generate CA: ")) engine.generate_ca
        proxy ← mapping_err (failed (codes "start proxy: ")) (engine.start_proxy policy cert)
        lift (ok (some proxy)))
        h

  -- The rules of a container in its network, and its proxy.
  unfoldable pub enforce : Text → Text → NetworkPolicy IpNet → Exec H RustboxError (Text × Option X)
  unfolding launch_proxy
  enforce container_id net_name policy = do
    ip ← get_container_ip engine container_id net_name
    apply_iptables engine.iptables engine.show ip policy
    proxy ← launch_proxy (needs_domain_proxy policy) policy
    lift (ok (ip, proxy))

  -- Only where it has a network.
  unfoldable pub enforce_in :
      Option Text → Text → NetworkPolicy IpNet → Exec H RustboxError (Option (Text × Option X))
  unfolding enforce
  enforce_in none container_id policy h = (ok none, h)
  enforce_in (some net_name) container_id policy h =
      (do found ← enforce container_id net_name policy; lift (ok (some found))) h

  abbrev pub drop_proxy : Option X → H → H
  drop_proxy none h = h
  drop_proxy (some proxy) h = engine.stop_proxy proxy h

  -- The guest is told about the proxy, if there is one.
  unfoldable pub trust_proxy : Text → ℕ → Option X → H → H
  trust_proxy container_id port none h = h
  trust_proxy container_id port (some proxy) h =
      let agent = local_agent port in
      let h1 = install_ca_cert engine.sockets agent (engine.cert_pem proxy) h in
      let (gateway, h2) = get_network_gateway engine container_id h1 in
      elim gateway [
        | none ↦ h2
        | some address ↦ write_proxy_env engine.sockets agent address (engine.port proxy) h2
      ]

  -- The instance that runs, by what was found of its network.
  abbrev pub started :
      DockerInstance IpNet X → ℕ → Option (Text × Option X) → DockerInstance IpNet X
  started inst host_port none = record inst {
    agent_host_port = host_port;
    status = SandboxStatus.running;
  }
  started inst host_port (some (ip, proxy)) = record inst {
    container_ip = some ip;
    proxy = proxy;
    agent_host_port = host_port;
    status = SandboxStatus.running;
  }

  -- The proxy that `started` replaces goes out of scope.
  abbrev pub drop_replaced : Option (Text × Option X) → Option X → H → H
  drop_replaced none proxy h = h
  drop_replaced (some found) proxy h = drop_proxy proxy h

  unfoldable pub start : SandboxId → Method IpNet X H (Unit {0})
  start id = do
    inst ← instance_of id
    on_host (
        mapping_err (failed (codes "start container: "))
          (engine.docker.start_container inst.container_id))
    host_port ← on_host (get_mapped_port engine inst.container_id)
    on_host (wait_for_agent engine host_port 30)
    found ← on_host (enforce_in inst.network_name inst.container_id inst.config.network_policy)
    effect (drop_replaced found inst.proxy)
    write id (started inst host_port found)
    effect (trust_proxy inst.container_id host_port (started inst host_port found).proxy)

  abbrev remove_rules : Option Text → H → H
  remove_rules none h = h
  remove_rules (some ip) h = (remove_iptables engine.iptables ip h).1

  abbrev remove_network : Option Text → SandboxId → H → H
  remove_network none id h = h
  remove_network (some net_name) id h = remove_sandbox_network engine.docker id h

  -- The rules, the container and the network of an instance; errors are ignored or logged.
  pub tear_down : ℕ → SandboxId → DockerInstance IpNet X → H → H
  tear_down seconds id inst h =
      let h1 = remove_rules inst.container_ip h in
      let (_, h2) = engine.docker.stop_container inst.container_id seconds h1 in
      let (_, h3) = engine.docker.remove_container inst.container_id true h2 in
      remove_network inst.network_name id h3

  unfoldable pub stop : SandboxId → Bool → Method IpNet X H (Unit {0})
  stop id blocking = do
    inst ← running_instance id
    effect (drop_proxy inst.proxy)
    write id (record inst { proxy = none })
    effect (tear_down 10 id inst)
    write id (record inst { proxy = none; status = SandboxStatus.stopped })
