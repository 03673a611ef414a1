-- ===== src/Network/Policy.antt =====
-- crates/rustbox-network/src/policy.rs and cidr.rs. `contains` is `IpNet::contains` of `ipnet`.
pub mod Decisions
use rustbox.Prelude.{Text, Bool, true, false, Option, none, some, List, any, if◌then◌else◌, not}
use rustbox.Core.Network.{NetworkMode, NetworkPolicy, TransformRule}
use rustbox.Network.Domain.{domain_matches, find_credential_headers}

pub data PolicyDecision : Type 0 where
  allow deny : PolicyDecision
  allow_with_transform : TransformRule → PolicyDecision

module _ {IpNet IpAddr : Type 0} (contains : IpNet → IpAddr → Bool) where
  abbrev pub ip_in_any_subnet : IpAddr → List IpNet → Bool
  ip_in_any_subnet ip subnets = any (λ net. contains net ip) subnets

  allow_ip_by_mode : NetworkMode → NetworkPolicy IpNet → IpAddr → Bool
  allow_ip_by_mode NetworkMode.allow_all policy ip = true
  allow_ip_by_mode NetworkMode.deny_all policy ip = ip_in_any_subnet ip policy.subnets_allow

  unfoldable pub should_allow_ip : NetworkPolicy IpNet → IpAddr → Bool
  unfolding allow_ip_by_mode
  should_allow_ip policy ip =
      if ip_in_any_subnet ip policy.subnets_deny
      then false
      else allow_ip_by_mode policy.mode policy ip

module _ (to_lowercase : Text → Text) {IpNet : Type 0} where
  allow_domain_by_mode : NetworkMode → NetworkPolicy IpNet → Text → Bool
  allow_domain_by_mode NetworkMode.allow_all policy domain = true
  allow_domain_by_mode NetworkMode.deny_all policy domain =
      any (λ pattern. domain_matches to_lowercase pattern domain) policy.allow_domains

  unfoldable pub should_allow_domain : NetworkPolicy IpNet → Text → Bool
  unfolding allow_domain_by_mode
  should_allow_domain policy domain = allow_domain_by_mode policy.mode policy domain

module _ (to_lowercase : Text → Text) {IpNet IpAddr : Type 0}
    (contains : IpNet → IpAddr → Bool) where
  -- The loop over `transform_rules` returns at the first rule that matches.
  unfoldable pub evaluate_connection : NetworkPolicy IpNet → Text → IpAddr → PolicyDecision
  unfolding find_credential_headers should_allow_domain should_allow_ip
  evaluate_connection policy domain ip =
      elim (find_credential_headers to_lowercase domain policy.transform_rules) [
        | some rule ↦ PolicyDecision.allow_with_transform rule
        | none ↦
            if not (should_allow_domain to_lowercase policy domain)
            then PolicyDecision.deny
            else if not (should_allow_ip contains policy ip)
            then PolicyDecision.deny
            else PolicyDecision.allow
      ]
