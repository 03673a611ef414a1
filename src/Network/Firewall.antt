-- ===== src/Network/Firewall.antt =====
-- crates/rustbox-network/src/firewall.rs. `show` is `Display` of `ipnet::IpNet`.
pub mod Verdicts
use rustbox.Prelude.{Text, List, [], ◌∷◌, ◌++◌, codes, map}
use rustbox.Core.Network.{NetworkMode, NetworkPolicy}

module _ {IpNet : Type 0} (show : IpNet → Text) where
  drop_rule : IpNet → Text
  drop_rule subnet = codes "add rule inet filter output ip daddr " ++ (show subnet ++ codes " drop")

  accept_rule : IpNet → Text
  accept_rule subnet =
      codes "add rule inet filter output ip daddr " ++ (show subnet ++ codes " accept")

  rules_by_mode : NetworkMode → NetworkPolicy IpNet → List Text
  rules_by_mode NetworkMode.allow_all policy =
      map drop_rule policy.subnets_deny ++ codes "add rule inet filter output accept" ∷ []
  rules_by_mode NetworkMode.deny_all policy =
      codes "add rule inet filter output oif lo accept"
      ∷ (map accept_rule policy.subnets_allow ++ codes "add rule inet filter output drop" ∷ [])

  -- `NftablesRuleSet::from_policy`: the field `rules`
  unfoldable pub from_policy : NetworkPolicy IpNet → List Text
  unfolding drop_rule accept_rule rules_by_mode
  from_policy policy = rules_by_mode policy.mode policy
