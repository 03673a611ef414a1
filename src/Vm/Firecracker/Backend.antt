-- ===== src/Vm/Firecracker/Backend.antt =====
-- `impl VmBackend` of crates/rustbox-vm/src/firecracker/backend.rs: the status, network policies and
-- snapshots, and the methods of Lifecycle and Agents.
pub mod Sound
use rustbox.Prelude.{
  Text, codes, ◌++◌, Bool, true, false, Option, none, some, ok, err, Exec, ◌>>=◌, ◌>>◌, lift,
  mapping_err, if◌then◌else◌,
}
use rustbox.Core.Network.{NetworkPolicy}
use rustbox.Core.Sandbox.{SandboxId, SnapshotId, SandboxStatus}
use rustbox.Core.Error.{RustboxError}
use rustbox.Core.Backend.{VmBackend}
use rustbox.Network.Firewall.{from_policy}
use rustbox.Network.Proxy.{needs_domain_proxy}
use rustbox.Vm.Firecracker.Api
use rustbox.Vm.Firecracker.Network.{apply_nftables, remove_nftables}
use rustbox.Vm.Firecracker.Host.{Host}
use rustbox.Vm.Firecracker.Instances.{
  FirecrackerBackendConfig, VmInstance, FirecrackerBackend, Method, on_host, instance_of,
  running_instance, write,
}
use rustbox.Vm.Firecracker.Lifecycle
use rustbox.Vm.Firecracker.Agents
use rustbox.Vm.Firecracker.Lifecycle.{failed, launch_proxy, trust_proxy}

module _ {IpNet C X H : Type 0} (host : Host IpNet C X H) (config : FirecrackerBackendConfig) where
  unfoldable pub status : SandboxId → Method IpNet C X H SandboxStatus
  status id = do inst ← instance_of id; lift (ok inst.status)

  -- The table is made anew for the policy.
  unfoldable pub replace_table : Option Text → NetworkPolicy IpNet → Exec H RustboxError (Unit {0})
  replace_table none policy h = (ok tt, h)
  replace_table (some table) policy h =
      apply_nftables host.nft table (from_policy host.show policy)
        (remove_nftables host.nft table h).1

  -- The proxy for the policy, by whether one is needed and whether one runs.
  change_proxy :
      Bool → Option X → VmInstance IpNet C X → NetworkPolicy IpNet → Exec H RustboxError (Option X)
  change_proxy true (some proxy) inst policy h =
      (ok (some proxy), host.update_policy proxy policy h)
  change_proxy true none inst policy h =
      let (launched, h') = launch_proxy host true policy inst.tap_name h in
      elim launched [ err e ↦ (err e, h') | ok proxy ↦ (ok proxy, trust_proxy host inst proxy h') ]
  change_proxy false (some proxy) inst policy h = (
    ok none,
    host.stop_proxy proxy (elim inst.tap_name [ none ↦ h | some tap ↦ host.remove_redirect tap h ]),
  )
  change_proxy false none inst policy h = (ok none, h)

  unfoldable pub update_network_policy :
      SandboxId → NetworkPolicy IpNet → Method IpNet C X H (Unit {0})
  unfolding replace_table change_proxy
  update_network_policy id policy = do
    inst ← instance_of id
    on_host (replace_table inst.nft_table policy)
    proxy ← on_host (change_proxy (needs_domain_proxy policy) inst.proxy inst policy)
    write id
        (record inst { proxy = proxy; config = record inst.config { network_policy = policy } })

  snapshot_dir : SandboxId → Text
  snapshot_dir id = host.join (host.join config.state_dir (codes "snapshots")) id

  unfoldable pub snapshot_create : SandboxId → Method IpNet C X H SnapshotId
  unfolding snapshot_dir
  snapshot_create id = do
    inst ← running_instance id
    snap_id ← on_host (λ h. let (snap_id, h') = host.new_id h in (ok snap_id, h'))
    on_host (
        mapping_err (failed (codes "create snapshot dir: "))
          (host.create_dir_all (snapshot_dir id)))
    on_host (Api.pause_instance host.http inst.socket_path)
    on_host (
        Api.create_snapshot host.http inst.socket_path
          (host.join (snapshot_dir id) (snap_id ++ codes ".snap"))
          (host.join (snapshot_dir id) (snap_id ++ codes ".mem")))
    lift (ok snap_id)

  unfoldable pub snapshot_restore : SandboxId → SnapshotId → Method IpNet C X H (Unit {0})
  unfolding snapshot_dir
  snapshot_restore id snap = do
    inst ← instance_of id
    λ b. (
      if host.processes.exists (host.join (snapshot_dir id) (snap ++ codes ".snap")) b.host
          then ok tt
          else err (RustboxError.snapshot_not_found snap),
      b,
    )
    on_host (
        Api.load_snapshot host.http inst.socket_path
          (host.join (snapshot_dir id) (snap ++ codes ".snap"))
          (host.join (snapshot_dir id) (snap ++ codes ".mem")))
    write id (record inst { status = SandboxStatus.running })

  -- `impl VmBackend for FirecrackerBackend`
  pub firecracker_backend : VmBackend IpNet (FirecrackerBackend IpNet C X H)
  firecracker_backend = record {
    create = Lifecycle.create host config;
    start = Lifecycle.start host config;
    stop = Lifecycle.stop host;
    status = status;
    exec = Agents.exec host;
    kill_command = Agents.kill_command host;
    write_file = Agents.write_file host;
    read_file = Agents.read_file host;
    mkdir = Agents.mkdir host;
    update_network_policy = update_network_policy;
    snapshot_create = snapshot_create;
    snapshot_restore = snapshot_restore;
    metrics = Agents.metrics host;
  }
