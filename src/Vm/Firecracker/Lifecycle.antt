-- ===== src/Vm/Firecracker/Lifecycle.antt =====
-- `create`, `start` and `stop` of crates/rustbox-vm/src/firecracker/backend.rs, as compiled for Linux.
-- Paths are UTF-8 and identifiers of sandboxes are UUIDs, so that no slice of them is out of range.
use rustbox.Prelude.{
  ℕ, ◌+◌, ◌*◌, Text, codes, [], ◌++◌, Bool, true, false, Option, none, some, ok, err, Exec, ◌>>=◌,
  ◌>>◌, lift, mapping_err, ltb, if◌then◌else◌, take,
}
use rustbox.Core.Network.{NetworkPolicy}
use rustbox.Core.Sandbox.{SandboxId, SandboxStatus, SandboxConfig, Runtime, CpuCount}
use rustbox.Core.Error.{RustboxError}
use rustbox.Network.Firewall.{from_policy}
use rustbox.Network.Proxy.{needs_domain_proxy}
use rustbox.Network.Proxy.Request.{decimal}
use rustbox.Vm.CaTrust.{install_ca_cert}
use rustbox.Vm.Firecracker.Api
use rustbox.Vm.Firecracker.Network.{apply_nftables, remove_nftables, generate_mac}
use rustbox.Vm.Firecracker.Process
use rustbox.Vm.Firecracker.Process.{FirecrackerProcess}
use rustbox.Vm.Firecracker.Host.{Host}
use rustbox.Vm.Firecracker.Instances.{
  FirecrackerBackendConfig, VmInstance, FirecrackerBackend, Method, on_host, effect, ignoring,
  or_drop, instance_of, running_instance, write, agent_client_for,
}

abbrev runtime_name : Runtime → Text
runtime_name Runtime.node24 = codes "node24"
runtime_name Runtime.node22 = codes "node22"
runtime_name Runtime.python313 = codes "python313"

-- `cpu_count as u8`
abbrev vcpu_count_of : CpuCount → ℕ
vcpu_count_of CpuCount.one = 1
vcpu_count_of CpuCount.two = 2
vcpu_count_of CpuCount.four = 4
vcpu_count_of CpuCount.eight = 8

-- 256 MiB for each processor, at least 512
abbrev mem_size_mib_of : ℕ → ℕ
mem_size_mib_of vcpu_count = if ltb (vcpu_count * 256) 512 then 512 else vcpu_count * 256

abbrev pub failed : Text → Text → RustboxError
failed what e = RustboxError.vm_backend (what ++ e)

module _ {IpNet C X H : Type 0} where
  abbrev drop_proxy : Host IpNet C X H → Option X → H → H
  drop_proxy host none h = h
  drop_proxy host (some proxy) h = host.stop_proxy proxy h

  abbrev drop_process : Host IpNet C X H → Option (FirecrackerProcess C) → H → H
  drop_process host none h = h
  drop_process host (some process) h = Process.drop host.processes process h

-- `FirecrackerBackend::new`; the identifiers of guests up to 2 are reserved.
unfoldable pub new : {IpNet C X H : Type 0} → H → FirecrackerBackend IpNet C X H
new h = record { instances = []; next_cid = 3; host = h }

-- The table of a sandbox is named by the first 8 characters of its identifier.
abbrev pub nft_table_of : SandboxId → Text
nft_table_of id = codes "rustbox_" ++ take 8 id

abbrev pub tap_name_of : ℕ → Text
tap_name_of guest_cid = codes "rb" ++ decimal guest_cid

module _ {IpNet C X H : Type 0} (host : Host IpNet C X H) where
  -- A proxy for the policy on this device, if one is needed.
  unfoldable pub launch_proxy :
      Bool → NetworkPolicy IpNet → Option Text → Exec H RustboxError (Option X)
  launch_proxy false policy tap h = (ok none, h)
  launch_proxy true policy tap h =
      let (ca, h1) = host.generate_ca h in
      elim ca [
        | err e ↦ (err (failed (codes "generate CA: ") e), h1)
        | ok cert ↦
            let (started, h2) = host.start_proxy policy cert h1 in
            elim started [
              | err e ↦ (err (failed (codes "start proxy: ") e), h2)
              | ok proxy ↦ elim tap [
                | none ↦ (ok (some proxy), h2)
                | some name ↦
                    let (redirected, h3) = host.setup_redirect name (host.port proxy) h2 in
                    elim redirected [
                      | err e ↦
                          (err (failed (codes "proxy redirect: ") e), host.stop_proxy proxy h3)
                      | ok _ ↦ (ok (some proxy), h3)
                    ]
              ]
            ]
      ]

  -- Its device and its rules.
  unfoldable pub connect_network : SandboxId → VmInstance IpNet C X → Exec H RustboxError (Unit {0})
  connect_network id inst = do
    host.create_tap (tap_name_of inst.guest_cid)
    Api.put_network_interface host.http inst.socket_path (codes "eth0") (tap_name_of inst.guest_cid)
        (generate_mac (host.uuid_bytes id))
    apply_nftables host.nft (nft_table_of id) (from_policy host.show inst.config.network_policy)

  -- The last steps, behind which the machine runs.
  pub boot : VmInstance IpNet C X → Exec H RustboxError (Unit {0})
  boot inst = do
    Api.put_vsock host.http inst.socket_path inst.vsock_path inst.guest_cid
    Api.start_instance host.http inst.socket_path

  -- The instance that runs. A process or a proxy that it had before is dropped.
  unfoldable pub set_started :
      SandboxId
      → VmInstance IpNet C X
      → FirecrackerProcess C
      → Option X
      → Method IpNet C X H (Unit {0})
  set_started id inst process proxy = do
    effect (drop_process host inst.process)
    effect (drop_proxy host inst.proxy)
    write id (record inst {
      process = some process;
      status = SandboxStatus.running;
      tap_name = some (tap_name_of inst.guest_cid);
      nft_table = some (nft_table_of id);
      proxy = proxy;
    })

  unfoldable pub trust_proxy : VmInstance IpNet C X → Option X → H → H
  trust_proxy inst none h = h
  trust_proxy inst (some proxy) h =
      install_ca_cert host.sockets (agent_client_for inst) (host.cert_pem proxy) h

  -- The network of an instance that stops.
  clean_up : VmInstance IpNet C X → H → H
  clean_up inst h =
      let h1 : H = elim inst.proxy [
        | none ↦ h
        | some proxy ↦
            host.stop_proxy proxy
              (elim inst.tap_name [ none ↦ h | some tap ↦ host.remove_redirect tap h ])
      ] in
      let h2 : H = elim inst.nft_table [
        | none ↦ h1
        | some table ↦ (remove_nftables host.nft table h1).1
      ] in
      elim inst.tap_name [ none ↦ h2 | some tap ↦ host.delete_tap tap h2 ]

  kill_process : Option (FirecrackerProcess C) → Exec H RustboxError (Unit {0})
  kill_process none h = (ok tt, h)
  kill_process (some process) h = Process.kill host.processes process h

  unfoldable pub stop : SandboxId → Bool → Method IpNet C X H (Unit {0})
  unfolding clean_up kill_process
  stop id blocking = do
    inst ← running_instance id
    ignoring (Api.stop_instance host.http inst.socket_path)
    write id (record inst { status = SandboxStatus.stopping })
    on_host (kill_process inst.process)
    effect (drop_process host inst.process)
    effect (clean_up inst)
    write id (record inst { process = none; proxy = none; status = SandboxStatus.stopped })

module _ {IpNet C X H : Type 0} (host : Host IpNet C X H) (config : FirecrackerBackendConfig) where
  abbrev rootfs_path_for : SandboxConfig IpNet → Text
  rootfs_path_for c = host.join config.rootfs_dir (runtime_name c.runtime ++ codes ".ext4")

  unfoldable pub create : SandboxId → SandboxConfig IpNet → Method IpNet C X H (Unit {0})
  create id c = do
    cid ← λ b. (ok b.next_cid, record b { next_cid = b.next_cid + 1 })
    write id (record {
      config = c;
      status = SandboxStatus.pending;
      process = none;
      socket_path = host.join config.state_dir (id ++ codes ".sock");
      vsock_path = host.join config.vsock_base_dir (id ++ codes ".vsock");
      guest_cid = cid;
      tap_name = none;
      nft_table = none;
      proxy = none;
    })

  -- The machine is described to the process, up to its root file system.
  pub describe : VmInstance IpNet C X → Exec H RustboxError (Unit {0})
  describe inst = do
    Api.put_boot_source host.http inst.socket_path config.kernel_path
        (codes "console=ttyS0 reboot=k panic=1 pci=off")
    Api.put_drive host.http inst.socket_path (codes "rootfs") (rootfs_path_for inst.config) true
        false
    Api.put_machine_config host.http inst.socket_path (vcpu_count_of inst.config.cpu_count)
        (mem_size_mib_of (vcpu_count_of inst.config.cpu_count))

  -- Up to the machine that runs.
  abbrev pub prepare : SandboxId → VmInstance IpNet C X → Method IpNet C X H (Option X)
  prepare id inst = do
    on_host (describe inst)
    on_host (connect_network host id inst)
    proxy ← on_host (
        launch_proxy host (needs_domain_proxy inst.config.network_policy) inst.config.network_policy
          (some (tap_name_of inst.guest_cid)))
    or_drop (drop_proxy host proxy) (on_host (boot host inst))
    lift (ok proxy)

  unfoldable pub start : SandboxId → Method IpNet C X H (Unit {0})
  unfolding launch_proxy describe connect_network boot set_started trust_proxy
  start id = do
    inst ← instance_of id
    on_host
        (mapping_err (failed (codes "create state dir: ")) (host.create_dir_all config.state_dir))
    on_host (
        mapping_err (failed (codes "create vsock dir: "))
          (host.create_dir_all config.vsock_base_dir))
    process ← on_host (
        Process.spawn host.processes inst.socket_path config.firecracker_bin
          (host.join config.state_dir (id ++ codes ".log")))
    proxy ← or_drop (Process.drop host.processes process) (prepare id inst)
    set_started host id inst process proxy
    effect (trust_proxy host inst proxy)
