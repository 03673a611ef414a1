-- ===== src/Vm/Docker/Network.antt =====
-- crates/rustbox-vm/src/docker/network.rs, as compiled for Linux. Identifiers of sandboxes are UUIDs,
-- so that no slice of them is out of range.
pub mod Chain
pub mod Verdicts
use rustbox.Prelude.{
  ◌-◌, Text, codes, List, [], ◌∷◌, ◌++◌, Bool, false, true, ◌&&◌, Option, none, some, Result, ok,
  err, Exec, ◌>>◌, length, drop, is_empty, starts_with, strip_prefix, if◌then◌else◌,
}
use rustbox.Prelude.Whitespace.{split_whitespace}
use rustbox.Core.Network.{NetworkMode, NetworkPolicy}
use rustbox.Core.Sandbox.{SandboxId}
use rustbox.Core.Error.{RustboxError}
use rustbox.Network.Redirect.{Output, contains, join_words, split_lines}
use rustbox.Vm.Docker.Engine.{Docker}

abbrev net_prefix : Text
net_prefix = codes "rustbox-net-"

abbrev failed : Text → Text → RustboxError
failed what e = RustboxError.vm_backend (what ++ e)

-- The last 12 characters of the identifier behind the prefix.
unfoldable pub network_name : SandboxId → Text
network_name id = net_prefix ++ drop (length id - 12) id

abbrev pub denies_all : NetworkMode → Bool
denies_all NetworkMode.allow_all = false
denies_all NetworkMode.deny_all = true

module _ {H : Type 0} (docker : Docker H) where
  -- The network is internal where nothing is to leave it.
  unfoldable pub create_sandbox_network :
      {IpNet : Type 0} → SandboxId → NetworkPolicy IpNet → Exec H RustboxError Text
  unfolding network_name
  create_sandbox_network id policy h =
      let internal = denies_all policy.mode && is_empty policy.subnets_allow in
      let (created, h') = docker.create_network (network_name id) (codes "bridge") internal h in
      elim created [
        | err e ↦ (err (failed (codes "create network " ++ network_name id ++ codes ": ") e), h')
        | ok _ ↦ (ok (network_name id), h')
      ]

  -- An error is only logged.
  pub remove_sandbox_network : SandboxId → H → H
  remove_sandbox_network id h = (docker.remove_network (network_name id) h).1

  -- The loop over the listed networks.
  remove_networks : List (Option Text) → H → H
  remove_networks [] h = h
  remove_networks (none ∷ names) h = remove_networks names h
  remove_networks (some name ∷ names) h =
      let removed = remove_networks names (docker.remove_network name h).1 in
      let kept = remove_networks names h in if starts_with net_prefix name then removed else kept

  unfoldable pub cleanup_orphaned_networks : H → H
  unfolding remove_networks
  cleanup_orphaned_networks h =
      let (listed, h') = docker.list_networks net_prefix h in
      elim listed [ err e ↦ h' | ok names ↦ remove_networks names h' ]

-- What stands behind the chain in the rules of a container.
abbrev pub established_spec : Text → List Text
established_spec container_ip =
    codes "-d"
    ∷ container_ip
    ∷ codes "-m"
    ∷ codes "conntrack"
    ∷ codes "--ctstate"
    ∷ codes "ESTABLISHED,RELATED"
    ∷ codes "-j"
    ∷ codes "ACCEPT"
    ∷ []

abbrev pub subnet_spec : Text → Text → Text → List Text
subnet_spec container_ip subnet target =
    codes "-s" ∷ container_ip ∷ codes "-d" ∷ subnet ∷ codes "-j" ∷ target ∷ []

abbrev pub drop_spec : Text → List Text
drop_spec container_ip = codes "-s" ∷ container_ip ∷ codes "-j" ∷ codes "DROP" ∷ []

-- The arguments that put a rule before all others of the chain, and behind them.
abbrev pub insert_args : List Text → List Text
insert_args spec = codes "-I" ∷ codes "DOCKER-USER" ∷ spec

abbrev pub append_args : List Text → List Text
append_args spec = codes "-A" ∷ codes "DOCKER-USER" ∷ spec

-- The arguments that delete the rule of a listed line, if the address stands in it.
unfoldable pub delete_args_of : Text → Text → Option (List Text)
delete_args_of container_ip line =
    if contains container_ip line
    then elim (strip_prefix (codes "-A ") line) [
      | none ↦ none
      | some rule_part ↦ some (codes "-D" ∷ split_whitespace rule_part)
    ]
    else none

module _ {H : Type 0} (iptables : List Text → H → Result Text Output × H) where
  unfoldable pub run_iptables : List Text → Exec H RustboxError (Unit {0})
  run_iptables args h =
      let (run, h') = iptables args h in
      elim run [
        | err e ↦ (err (failed (codes "iptables: ") e), h')
        | ok output ↦ (
          if output.success
              then ok tt
              else err (
                  failed (codes "iptables " ++ join_words args ++ codes " failed: ") output.stderr),
          h',
        )
      ]

  module _ {IpNet : Type 0} (show : IpNet → Text) where
    unfoldable pub block_subnets : Text → List IpNet → Exec H RustboxError (Unit {0})
    unfolding run_iptables
    block_subnets container_ip [] h = (ok tt, h)
    block_subnets container_ip (subnet ∷ subnets) h =
        (run_iptables (append_args (subnet_spec container_ip (show subnet) (codes "DROP")))
            >> block_subnets container_ip subnets)
          h

    unfoldable pub allow_subnets : Text → List IpNet → Exec H RustboxError (Unit {0})
    unfolding run_iptables
    allow_subnets container_ip [] h = (ok tt, h)
    allow_subnets container_ip (subnet ∷ subnets) h =
        (run_iptables (insert_args (subnet_spec container_ip (show subnet) (codes "ACCEPT")))
            >> allow_subnets container_ip subnets)
          h

    unfoldable pub apply_by_mode :
        NetworkMode → Text → NetworkPolicy IpNet → Exec H RustboxError (Unit {0})
    unfolding run_iptables block_subnets allow_subnets
    apply_by_mode NetworkMode.allow_all container_ip policy =
        block_subnets container_ip policy.subnets_deny
    apply_by_mode NetworkMode.deny_all container_ip policy =
        allow_subnets container_ip policy.subnets_allow
        >> run_iptables (append_args (drop_spec container_ip))

    unfoldable pub apply_iptables : Text → NetworkPolicy IpNet → Exec H RustboxError (Unit {0})
    unfolding run_iptables apply_by_mode
    apply_iptables container_ip policy =
        run_iptables (insert_args (established_spec container_ip))
        >> apply_by_mode policy.mode container_ip policy

  -- The loop over the listed rules; a deletion that fails is passed over.
  unfoldable pub remove_listed : Text → List Text → H → H
  unfolding delete_args_of run_iptables
  remove_listed container_ip [] h = h
  remove_listed container_ip (line ∷ lines) h = elim (delete_args_of container_ip line) [
    | none ↦ remove_listed container_ip lines h
    | some args ↦ remove_listed container_ip lines (run_iptables args h).1
  ]

  unfoldable pub remove_iptables : Text → Exec H RustboxError (Unit {0})
  unfolding remove_listed
  remove_iptables container_ip h =
      let (run, h') = iptables (codes "-S" ∷ codes "DOCKER-USER" ∷ []) h in
      elim run [
        | err e ↦ (err (failed (codes "iptables -S: ") e), h')
        | ok output ↦ (
          ok tt,
          if output.success then remove_listed container_ip (split_lines output.stdout) h' else h',
        )
      ]
