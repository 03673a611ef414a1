-- ===== src/Vm/Firecracker/Backend/Sound.antt =====
-- What the table of crates/rustbox-vm/src/firecracker/backend.rs holds after any calls.
use rustbox.Prelude.{
  ℕ, Text, codes, List, [], ◌∷◌, Bool, none, some, Exec, ◌>>=◌, ◌≡◌, refl, Option-cases, Option,
  bind-eq-ok, ap, sym, ◌∙◌, Result-cases, inl, inr,
}
use rustbox.Prelude.Dict
use rustbox.Prelude.Dict.{AllEntries, AllEntries-insert}
use rustbox.Prelude.Int.{ℤ}
use rustbox.Prelude.Keeps.{Keeps, Succeeds, keeps_rules}
use rustbox.Core.Network.{NetworkPolicy}
use rustbox.Core.Sandbox.{SandboxId, CommandId, SandboxStatus, SandboxConfig}
use rustbox.Core.Command.{CommandRequest}
use rustbox.Core.Error.{RustboxError}
use rustbox.Vm.Firecracker.Process
use rustbox.Vm.Firecracker.Process.{FirecrackerProcess}
use rustbox.Vm.Firecracker.Host.{Host}
use rustbox.Vm.Firecracker.Instances.{
  FirecrackerBackendConfig, VmInstance, FirecrackerBackend, Method, on_host, effect, ignoring,
  or_drop, instance_of, running_instance, write,
}
use rustbox.Vm.Firecracker.Lifecycle
use rustbox.Vm.Firecracker.Agents
use rustbox.Vm.Firecracker.Backend
use rustbox.Vm.Firecracker.Lifecycle.{nft_table_of, tap_name_of, connect_network}
use rustbox.Vm.Firecracker.Network.{apply_nftables, generate_mac}
use rustbox.Vm.Firecracker.Api
use rustbox.Network.Firewall.{from_policy}

module _ {IpNet C X H : Type 0} (host : Host IpNet C X H) where
  -- The device and the table under their names, each of which the host has made, the table for the
  -- policy of the instance.
  pub record IsConnected (id : SandboxId) (inst : VmInstance IpNet C X) : Type 0 where
    pub device : inst.tap_name ≡ some (tap_name_of inst.guest_cid)
    pub created : Succeeds (host.create_tap (tap_name_of inst.guest_cid)) tt
    pub table : inst.nft_table ≡ some (nft_table_of id)
    pub applied :
        Succeeds
          (apply_nftables host.nft
            (nft_table_of id)
            (from_policy host.show inst.config.network_policy))
          tt

  -- What an instance has, by its status.
  abbrev pub HasParts : SandboxId → VmInstance IpNet C X → SandboxStatus → Type 0
  HasParts id inst SandboxStatus.pending = inst.process ≡ none
  HasParts id inst SandboxStatus.running =
      (process : FirecrackerProcess C) × (inst.process ≡ some process) × IsConnected id inst
  HasParts id inst SandboxStatus.stopping = Unit
  HasParts id inst SandboxStatus.stopped = inst.process ≡ none
  HasParts id inst SandboxStatus.failed = ⊥

  abbrev pub IsSound : SandboxId → VmInstance IpNet C X → Type 0
  IsSound id inst = HasParts id inst inst.status

module _ {IpNet C X H : Type 0} (host : Host IpNet C X H) where
  AllSound : FirecrackerBackend IpNet C X H → Type 0
  AllSound b = AllEntries (IsSound host) b.instances

  on_host-AllSound : {A : Type 0} (m : Exec H RustboxError A) → Keeps AllSound (on_host m)
  unfolding AllSound
  on_host-AllSound m = record { after = λ b h. h }

  effect-AllSound : (f : H → H) → Keeps AllSound (effect f)
  unfolding AllSound
  effect-AllSound f = record { after = λ b h. h }

  ignoring-AllSound : {A : Type 0} (m : Exec H RustboxError A) → Keeps AllSound (ignoring m)
  unfolding AllSound
  ignoring-AllSound m = record { after = λ b h. h }

  or_drop-AllSound :
      {A : Type 0} (discard : H → H) (m : Method IpNet C X H A)
      → Keeps AllSound m
      → Keeps AllSound (or_drop discard m)
  unfolding AllSound
  or_drop-AllSound discard m km = record {
    after = λ b h. elim (Result-cases (m b).0) [
      | inl (a, e) ↦ rw (e, or_drop) (km.after b h)
      | inr (e, f) ↦ rw (f, or_drop) (km.after b h)
    ];
  }

  write-AllSound :
      (id : SandboxId) (inst : VmInstance IpNet C X)
      → IsSound host id inst
      → Keeps AllSound (write id inst)
  unfolding AllSound
  write-AllSound id inst sound = record {
    after = λ b h. AllEntries-insert (IsSound host) id inst b.instances sound h;
  }

  -- A method goes on with the instance that it has found, which is sound.
  instance_of-AllSound :
      {A : Type 0} (id : SandboxId) (f : VmInstance IpNet C X → Method IpNet C X H A)
      → ((inst : VmInstance IpNet C X) → IsSound host id inst → Keeps AllSound (f inst))
      → Keeps AllSound (instance_of id >>= f)
  unfolding AllSound
  instance_of-AllSound id f kf = record {
    after = λ b h. elim (Option-cases (Dict.get id b.instances)) [
      | inl missing ↦ rw missing h
      | inr (inst, there) ↦ rw there ((kf inst (h id inst there)).after b h)
    ];
  }

  running_instance-AllSound : (id : SandboxId) → Keeps AllSound (running_instance id)
  running_instance-AllSound id = instance_of-AllSound id _ (λ inst sound. search (keeps_rules))

ruleset sound_rules = (
  keeps_rules, on_host-AllSound, effect-AllSound, ignoring-AllSound, or_drop-AllSound,
  write-AllSound, running_instance-AllSound,
)

-- A call of the backend. Its result is dropped.
pub data Call (IpNet : Type 0) : Type 0 where
  create : SandboxId → SandboxConfig IpNet → Call IpNet
  start : SandboxId → Call IpNet
  stop : SandboxId → Bool → Call IpNet
  status : SandboxId → Call IpNet
  exec : SandboxId → CommandRequest → Call IpNet
  kill_command : SandboxId → CommandId → ℤ → Call IpNet
  write_file : SandboxId → Text → List ℕ → Call IpNet
  read_file : SandboxId → Text → Call IpNet
  mkdir : SandboxId → Text → Call IpNet
  metrics : SandboxId → Call IpNet
  update_network_policy : SandboxId → NetworkPolicy IpNet → Call IpNet
  snapshot_create : SandboxId → Call IpNet

module _ {IpNet C X H : Type 0} (host : Host IpNet C X H) (config : FirecrackerBackendConfig) where
  -- What the host has done when the network of an instance is connected.
  connected :
      (id : SandboxId) (inst : VmInstance IpNet C X) (process : FirecrackerProcess C)
      (proxy : Option X)
      → Succeeds (connect_network host id inst) tt
      → IsConnected host id (record inst {
        process = some process;
        status = SandboxStatus.running;
        tap_name = some (tap_name_of inst.guest_cid);
        nft_table = some (nft_table_of id);
        proxy = proxy;
      })
  unfolding connect_network
  connected id inst process proxy (h, done) =
      let (a, created, rest) = bind-eq-ok (host.create_tap (tap_name_of inst.guest_cid)) _ h done in
      let (b, named, rest') =
        bind-eq-ok
          (Api.put_network_interface host.http inst.socket_path (codes "eth0")
            (tap_name_of inst.guest_cid) (generate_mac (host.uuid_bytes id)))
          _ _ (sym (ap (λ p. p.0) rest) ∙ done) in
      record {
        device = refl;
        created = (h, created);
        table = refl;
        applied = (_, sym (ap (λ p. p.0) rest') ∙ (sym (ap (λ p. p.0) rest) ∙ done));
      }

  unfoldable perform : Call IpNet → FirecrackerBackend IpNet C X H → FirecrackerBackend IpNet C X H
  perform (Call.create id c) b = (Lifecycle.create host config id c b).1
  perform (Call.start id) b = (Lifecycle.start host config id b).1
  perform (Call.stop id blocking) b = (Lifecycle.stop host id blocking b).1
  perform (Call.status id) b = (Backend.status host config id b).1
  perform (Call.exec id cmd) b = (Agents.exec host id cmd b).1
  perform (Call.kill_command id cmd_id signal) b = (Agents.kill_command host id cmd_id signal b).1
  perform (Call.write_file id path content) b = (Agents.write_file host id path content b).1
  perform (Call.read_file id path) b = (Agents.read_file host id path b).1
  perform (Call.mkdir id path) b = (Agents.mkdir host id path b).1
  perform (Call.metrics id) b = (Agents.metrics host id b).1
  perform (Call.update_network_policy id policy) b =
      (Backend.update_network_policy host config id policy b).1
  perform (Call.snapshot_create id) b = (Backend.snapshot_create host config id b).1

  unfoldable pub history :
      List (Call IpNet) → FirecrackerBackend IpNet C X H → FirecrackerBackend IpNet C X H
  unfolding perform
  history [] b = b
  history (call ∷ calls) b = history calls (perform call b)
