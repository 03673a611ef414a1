-- ===== src/Network/Proxy/Need.antt =====
-- `needs_domain_proxy` of crates/rustbox-network/src/proxy.rs against the evaluator of policy.rs.
use rustbox.Prelude.{
  Text, List, [], ◌∷◌, Bool, true, false, is_empty, if◌then◌else◌, ◌≡◌, refl, ◌⊎◌, inl, inr, arith,
  Bool-cases,
}
use rustbox.Core.Network.{NetworkMode, NetworkPolicy}
use rustbox.Network.Domain.{find_credential_headers}
use rustbox.Network.Policy.{
  PolicyDecision, should_allow_domain, should_allow_ip, evaluate_connection,
}
use rustbox.Network.Proxy.{needs_domain_proxy}

-- A decision that the domain has no part in.
abbrev pub by_address : NetworkMode → Bool → PolicyDecision
by_address NetworkMode.allow_all allowed =
    if allowed then PolicyDecision.allow else PolicyDecision.deny
by_address NetworkMode.deny_all allowed = PolicyDecision.deny

is_empty_lem : {A : Type 0} (xs : List A) → is_empty xs ≡ true → xs ≡ []
is_empty_lem [] h = refl
is_empty_lem (x ∷ xs) h = absurd (ground arith)

NetworkMode-cases : (m : NetworkMode) → (m ≡ NetworkMode.allow_all) ⊎ (m ≡ NetworkMode.deny_all)
NetworkMode-cases NetworkMode.allow_all = inl refl
NetworkMode-cases NetworkMode.deny_all = inr refl

module _ (to_lowercase : Text → Text) {IpNet IpAddr : Type 0}
    (contains : IpNet → IpAddr → Bool) where
  -- Where a policy needs no proxy for domains, the evaluator decides by the address alone: in the
  -- mode that allows all as should_allow_ip does, and in the mode that denies all it denies.
  pub needs_domain_proxy-address :
      (policy : NetworkPolicy IpNet) (domain : Text) (ip : IpAddr)
      → needs_domain_proxy policy ≡ false
      → evaluate_connection to_lowercase contains policy domain ip
        ≡ by_address policy.mode (should_allow_ip contains policy ip)
  unfolding needs_domain_proxy evaluate_connection find_credential_headers should_allow_domain
  needs_domain_proxy-address policy domain ip h =
      let rules : policy.transform_rules ≡ [] =
        is_empty_lem policy.transform_rules (ground (arith, h)) in
      elim (NetworkMode-cases policy.mode) [
        | inl open_mode ↦ elim (Bool-cases (should_allow_ip contains policy ip)) [
          | inl allowed ↦ ground (arith, rules, open_mode, allowed)
          | inr refused ↦ ground (arith, rules, open_mode, refused)
        ]
        | inr closed ↦
            let domains : policy.allow_domains ≡ [] =
              is_empty_lem policy.allow_domains (ground (arith, h, closed)) in
            ground (arith, rules, closed, domains)
      ]
