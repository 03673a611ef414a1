-- ===== src/Vm/Docker/Backend/Sound.antt =====
-- What is known of the table of crates/rustbox-vm/src/docker/backend.rs, and the ways to reach it that
-- keep it.
use rustbox.Prelude.{
  ℕ, Text, codes, Bool, Result, ok, err, bind-eq-ok, ap, sym, subst, ◌∙◌, ◌&&◌, is_empty, true,
  arith, Bool-cases, Option, none, some, Exec, ◌>>=◌, ◌≡◌, refl, Option-cases, Result-cases, inl,
  inr,
}
use rustbox.Prelude.Dict
use rustbox.Prelude.Dict.{AllEntries, AllEntries-insert, AllEntries-nil}
use rustbox.Prelude.Keeps.{Keeps, Succeeds, keeps_rules}
use rustbox.Core.Network.{NetworkPolicy}
use rustbox.Core.Sandbox.{SandboxId, SandboxStatus}
use rustbox.Core.Error.{RustboxError}
use rustbox.Vm.Docker.Engine.{Engine}
use rustbox.Vm.Docker.Network.{network_name, create_sandbox_network, denies_all, apply_iptables}
use rustbox.Vm.Docker.Containers.{DockerInstance, DockerBackend, get_container_ip}
use rustbox.Vm.Docker.Instances.{
  Method, on_host, effect, instance_of, running_instance, running_only, is_running, write,
}
use rustbox.Vm.Docker.Lifecycle.{launch_proxy, enforce, enforce_in}
use rustbox.Network.Proxy.{needs_domain_proxy}

module _ {IpNet X H : Type 0} (engine : Engine IpNet X H) where
  -- The engine has made a network for the sandbox.
  abbrev pub IsMade : SandboxId → Type 0
  IsMade id =
      (internal : Bool) × Succeeds
        (engine.docker.create_network (network_name id) (codes "bridge") internal) tt

  -- The rules of the policy went through for the address.
  abbrev pub IsEnforced : NetworkPolicy IpNet → Text → Type 0
  IsEnforced policy ip = Succeeds (apply_iptables engine.iptables engine.show ip policy) tt

  abbrev pub IsRestricted : NetworkPolicy IpNet → Option Text → Type 0
  IsRestricted policy container_ip = (ip : Text) × (container_ip ≡ some ip) × IsEnforced policy ip

  -- What is known of an instance's address and port, by its status.
  abbrev pub HasAddress : NetworkPolicy IpNet → SandboxStatus → Option Text → ℕ → Type 0
  HasAddress policy SandboxStatus.pending container_ip port = (container_ip ≡ none) × (port ≡ 0)
  HasAddress policy SandboxStatus.running container_ip port = IsRestricted policy container_ip
  HasAddress policy SandboxStatus.stopping container_ip port = ⊥
  HasAddress policy SandboxStatus.stopped container_ip port = IsRestricted policy container_ip
  HasAddress policy SandboxStatus.failed container_ip port = ⊥

  abbrev pub IsSound : SandboxId → DockerInstance IpNet X → Type 0
  IsSound id inst =
      (inst.network_name ≡ some (network_name id))
      × IsMade id
      × HasAddress inst.config.network_policy inst.status inst.container_ip inst.agent_host_port

running_of : (status : SandboxStatus) → is_running status ≡ true → status ≡ SandboxStatus.running
running_of SandboxStatus.running h = refl
running_of SandboxStatus.pending h = absurd (ground arith)
running_of SandboxStatus.stopping h = absurd (ground arith)
running_of SandboxStatus.stopped h = absurd (ground arith)
running_of SandboxStatus.failed h = absurd (ground arith)

module _ {IpNet X H : Type 0} (engine : Engine IpNet X H) where
  unfoldable pub AllSound : DockerBackend IpNet X H → Type 0
  AllSound b = AllEntries (IsSound engine) b.instances

  pub on_host-AllSound : {A : Type 0} (m : Exec H RustboxError A) → Keeps AllSound (on_host m)
  unfolding AllSound
  on_host-AllSound m = record { after = λ b h. h }

  pub effect-AllSound : (f : H → H) → Keeps AllSound (effect f)
  unfolding AllSound
  effect-AllSound f = record { after = λ b h. h }

  pub write-AllSound :
      (id : SandboxId) (inst : DockerInstance IpNet X)
      → IsSound engine id inst
      → Keeps AllSound (write id inst)
  unfolding AllSound
  write-AllSound id inst sound = record {
    after = λ b h. AllEntries-insert (IsSound engine) id inst b.instances sound h;
  }

  -- A method goes on with the instance that it has found, which is sound.
  pub instance_of-AllSound :
      {A : Type 0} (id : SandboxId) (f : DockerInstance IpNet X → Method IpNet X H A)
      → ((inst : DockerInstance IpNet X) → IsSound engine id inst → Keeps AllSound (f inst))
      → Keeps AllSound (instance_of id >>= f)
  unfolding AllSound
  instance_of-AllSound id f kf = record {
    after = λ b h. elim (Option-cases (Dict.get id b.instances)) [
      | inl missing ↦ rw missing h
      | inr (inst, there) ↦ rw there ((kf inst (h id inst there)).after b h)
    ];
  }

  -- The same for one that is found to be running.
  pub running_instance-AllSound :
      {A : Type 0} (id : SandboxId) (f : DockerInstance IpNet X → Method IpNet X H A)
      → ((inst : DockerInstance IpNet X)
          → IsSound engine id inst
          → inst.status ≡ SandboxStatus.running
          → Keeps AllSound (f inst))
      → Keeps AllSound (running_instance id >>= f)
  unfolding AllSound
  running_instance-AllSound id f kf = record {
    after = λ b h. elim (Option-cases (Dict.get id b.instances)) [
      | inl missing ↦ rw missing h
      | inr (inst, there) ↦ rw there (elim (Bool-cases (is_running inst.status)) [
        | inl up ↦
            rw (up, running_only)
              ((kf inst (h id inst there) (running_of inst.status up)).after b h)
        | inr down ↦ rw (down, running_only) h
      ])
    ];
  }

module _ {IpNet X H : Type 0} (engine : Engine IpNet X H) where
  -- The network that is made for a sandbox has its name.
  pub created-AllSound :
      {A : Type 0} (id : SandboxId) (policy : NetworkPolicy IpNet) (f : Text → Method IpNet X H A)
      → (IsMade engine id → Keeps (AllSound engine) (f (network_name id)))
      → Keeps (AllSound engine) (on_host (create_sandbox_network engine.docker id policy) >>= f)
  unfolding AllSound create_sandbox_network
  created-AllSound id policy f kf =
      let internal = denies_all policy.mode && is_empty policy.subnets_allow in
      record {
        after = λ b h.
            elim (Result-cases
              (engine.docker.create_network (network_name id) (codes "bridge") internal b.host).0) [
                | inl (a, e) ↦
                    rw (e, create_sandbox_network) ((kf (internal, (b.host, e))).after _ h)
                | inr (a, e) ↦ rw (e, create_sandbox_network) h
              ];
      }

  -- Where the network of a container is policed, the rules have gone through.
  enforce-IsEnforced :
      (container_id net_name : Text) (policy : NetworkPolicy IpNet) (found : Text × Option X)
      → Succeeds (enforce engine container_id net_name policy) found
      → IsEnforced engine policy found.0
  unfolding enforce
  enforce-IsEnforced container_id net_name policy found (h, done) =
      let (ip, _, rest) = bind-eq-ok (get_container_ip engine container_id net_name) _ h done in
      let done' = sym (ap (λ p. p.0) rest) ∙ done in
      let (u, applied, rest') =
        bind-eq-ok (apply_iptables engine.iptables engine.show ip policy) _ _ done' in
      let done'' = sym (ap (λ p. p.0) rest') ∙ done' in
      let (proxy, _, rest'') =
        bind-eq-ok (launch_proxy engine (needs_domain_proxy policy) policy) _ _ done'' in
      let same : ip ≡ found.0 =
        ap (λ (r : Result RustboxError (Text × Option X)). elim r [ ok x ↦ x.0 | err e ↦ ip ])
          (sym (ap (λ p. p.0) rest'') ∙ done'') in
      subst (IsEnforced engine policy) same (_, applied)

  pub enforced-AllSound :
      {A : Type 0} (net_name container_id : Text) (policy : NetworkPolicy IpNet)
      (f : Text × Option X → Method IpNet X H A)
      → ((found : Text × Option X)
          → IsEnforced engine policy found.0
          → Keeps (AllSound engine) (f found))
      → Keeps (AllSound engine) (on_host (enforce engine container_id net_name policy) >>= f)
  unfolding AllSound
  enforced-AllSound net_name container_id policy f kf = record {
    after = λ b h. elim (Result-cases (enforce engine container_id net_name policy b.host).0) [
      | inl (found, e) ↦
          rw e (
            (kf found (enforce-IsEnforced container_id net_name policy found (b.host, e))).after _
              h)
      | inr (a, e) ↦ rw e h
    ];
  }

  -- In a network, the address of a container that is started is found.
  pub enforced_in-AllSound :
      {A : Type 0} (net : Option Text) (net_name container_id : Text) (policy : NetworkPolicy IpNet)
      (f : Option (Text × Option X) → Method IpNet X H A)
      → net ≡ some net_name
      → ((found : Text × Option X)
          → IsEnforced engine policy found.0
          → Keeps (AllSound engine) (f (some found)))
      → Keeps (AllSound engine) (on_host (enforce_in engine net container_id policy) >>= f)
  unfolding AllSound enforce_in
  enforced_in-AllSound net net_name container_id policy f e kf = rw e (record {
    after = λ b h. elim (Result-cases (enforce engine container_id net_name policy b.host).0) [
      | inl (found, e) ↦
          rw (e, enforce_in)
            ((kf found (enforce-IsEnforced container_id net_name policy found (b.host, e))).after _
              h)
      | inr (a, e) ↦ rw (e, enforce_in) h
    ];
  })

pub ruleset sound_rules = (keeps_rules, on_host-AllSound, effect-AllSound, write-AllSound)
