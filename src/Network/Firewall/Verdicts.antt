-- ===== src/Network/Firewall/Verdicts.antt =====
-- What the generated rules do with a packet, and how that compares with policy.rs.
use rustbox.Prelude.{
  Text, Bool, true, false, Option, none, some, List, [], ◌∷◌, ◌++◌, codes, map, any, if◌then◌else◌,
  ◌≡◌, refl, sym, ap, arith, ◌||◌, ◌&&◌,
}
use rustbox.Core.Network.{NetworkMode, NetworkPolicy}
use rustbox.Network.Policy.{ip_in_any_subnet, should_allow_ip}
use rustbox.Network.Firewall.{from_policy, drop_rule, accept_rule, rules_by_mode}

-- A rule of the output chain: whom it concerns and what happens to the packet.
pub data Rule (IpNet : Type 0) : Type 0 where
  loopback_accept daddr_any_accept daddr_any_drop : Rule IpNet
  daddr_accept daddr_drop : IpNet → Rule IpNet

module _ {IpNet : Type 0} (show : IpNet → Text) where
  -- The text that nftables reads as the rule.
  pub print : Rule IpNet → Text
  print Rule.loopback_accept = codes "add rule inet filter output oif lo accept"
  print Rule.daddr_any_accept = codes "add rule inet filter output accept"
  print Rule.daddr_any_drop = codes "add rule inet filter output drop"
  print (Rule.daddr_accept net) =
      codes "add rule inet filter output ip daddr " ++ (show net ++ codes " accept")
  print (Rule.daddr_drop net) =
      codes "add rule inet filter output ip daddr " ++ (show net ++ codes " drop")

abbrev all : {A : Type 0} → (A → Bool) → List A → Bool
all p [] = true
all p (x ∷ xs) = p x && all p xs

-- nftables reads an IPv4 prefix behind `ip daddr`. With another the whole script is refused.
pub loads : {IpNet : Type 0} → (IpNet → Bool) → List (Rule IpNet) → Bool
loads is_ipv4 [] = true
loads is_ipv4 (Rule.daddr_accept net ∷ rules) = is_ipv4 net && loads is_ipv4 rules
loads is_ipv4 (Rule.daddr_drop net ∷ rules) = is_ipv4 net && loads is_ipv4 rules
loads is_ipv4 (rule ∷ rules) = loads is_ipv4 rules

module _ {IpNet IpAddr : Type 0} (contains : IpNet → IpAddr → Bool) where
  -- The verdict of a chain that was loaded: the first rule that concerns the packet decides, and `policy` is the
  -- chain's default.
  pub accepts : List (Rule IpNet) → Bool → IpAddr → Bool → Bool
  accepts [] loopback ip policy = policy
  accepts (Rule.loopback_accept ∷ rules) loopback ip policy =
      loopback || accepts rules loopback ip policy
  accepts (Rule.daddr_any_accept ∷ rules) loopback ip policy = true
  accepts (Rule.daddr_any_drop ∷ rules) loopback ip policy = false
  accepts (Rule.daddr_accept net ∷ rules) loopback ip policy =
      contains net ip || accepts rules loopback ip policy
  accepts (Rule.daddr_drop net ∷ rules) loopback ip policy =
      if contains net ip then false else accepts rules loopback ip policy

  -- The verdict of the rules once they are a script, if nftables takes it.
  abbrev pub verdict : (IpNet → Bool) → List (Rule IpNet) → Bool → IpAddr → Bool → Option Bool
  verdict is_ipv4 rules loopback ip policy =
      if loads is_ipv4 rules then some (accepts rules loopback ip policy) else none

  accepts-deny_list :
      (nets : List IpNet) (loopback : Bool) (ip : IpAddr) (policy : Bool)
      → accepts (map Rule.daddr_drop nets ++ Rule.daddr_any_accept ∷ []) loopback ip policy
        ≡ (if any (λ net. contains net ip) nets then false else true)
  unfolding accepts
  accepts-deny_list [] loopback ip policy = refl
  accepts-deny_list (net ∷ nets) loopback ip policy =
      ground (arith, accepts-deny_list nets loopback ip policy)

  accepts-allow_list :
      (nets : List IpNet) (loopback : Bool) (ip : IpAddr) (policy : Bool)
      → accepts (map Rule.daddr_accept nets ++ Rule.daddr_any_drop ∷ []) loopback ip policy
        ≡ any (λ net. contains net ip) nets
  unfolding accepts
  accepts-allow_list [] loopback ip policy = refl
  accepts-allow_list (net ∷ nets) loopback ip policy =
      ground (arith, accepts-allow_list nets loopback ip policy)

-- The rules that `from_policy` prints.
rules_of : {IpNet : Type 0} → NetworkMode → NetworkPolicy IpNet → List (Rule IpNet)
rules_of NetworkMode.allow_all policy =
    map Rule.daddr_drop policy.subnets_deny ++ Rule.daddr_any_accept ∷ []
rules_of NetworkMode.deny_all policy =
    Rule.loopback_accept ∷ (map Rule.daddr_accept policy.subnets_allow ++ Rule.daddr_any_drop ∷ [])

module _ {IpNet : Type 0} (is_ipv4 : IpNet → Bool) where
  loads-drop :
      (nets : List IpNet)
      → loads is_ipv4 (map Rule.daddr_drop nets ++ Rule.daddr_any_accept ∷ []) ≡ all is_ipv4 nets
  unfolding loads
  loads-drop [] = refl
  loads-drop (net ∷ nets) = ap (λ b. is_ipv4 net && b) (loads-drop nets)

  loads-accept :
      (nets : List IpNet)
      → loads is_ipv4 (map Rule.daddr_accept nets ++ Rule.daddr_any_drop ∷ []) ≡ all is_ipv4 nets
  unfolding loads
  loads-accept [] = refl
  loads-accept (net ∷ nets) = ap (λ b. is_ipv4 net && b) (loads-accept nets)

module _ {IpNet : Type 0} (show : IpNet → Text) where
  map-print-drop :
      (nets : List IpNet)
      → map (print show) (map Rule.daddr_drop nets ++ Rule.daddr_any_accept ∷ [])
        ≡ map (drop_rule show) nets ++ codes "add rule inet filter output accept" ∷ []
  unfolding print drop_rule
  map-print-drop [] = refl
  map-print-drop (net ∷ nets) = ap (λ t. drop_rule show net ∷ t) (map-print-drop nets)

  map-print-accept :
      (nets : List IpNet)
      → map (print show) (map Rule.daddr_accept nets ++ Rule.daddr_any_drop ∷ [])
        ≡ map (accept_rule show) nets ++ codes "add rule inet filter output drop" ∷ []
  unfolding print accept_rule
  map-print-accept [] = refl
  map-print-accept (net ∷ nets) = ap (λ t. accept_rule show net ∷ t) (map-print-accept nets)

  rules_by_mode_lem :
      (mode : NetworkMode) (policy : NetworkPolicy IpNet)
      → rules_by_mode show mode policy ≡ map (print show) (rules_of mode policy)
  unfolding rules_by_mode rules_of print
  rules_by_mode_lem NetworkMode.allow_all policy = sym (map-print-drop policy.subnets_deny)
  rules_by_mode_lem NetworkMode.deny_all policy =
      ap (λ t. codes "add rule inet filter output oif lo accept" ∷ t)
        (sym (map-print-accept policy.subnets_allow))

-- The subnets that the rules name.
abbrev pub subnets_of : {IpNet : Type 0} → NetworkMode → NetworkPolicy IpNet → List IpNet
subnets_of NetworkMode.allow_all policy = policy.subnets_deny
subnets_of NetworkMode.deny_all policy = policy.subnets_allow

module _ {IpNet IpAddr : Type 0} (show : IpNet → Text) (contains : IpNet → IpAddr → Bool)
    (policy : NetworkPolicy IpNet) where
  -- The verdict on packets that policy.rs and firewall.rs are meant to share.
  abbrev pub expected_verdict : NetworkMode → Bool → IpAddr → Bool
  expected_verdict NetworkMode.allow_all loopback ip = should_allow_ip contains policy ip
  expected_verdict NetworkMode.deny_all loopback ip =
      loopback || ip_in_any_subnet contains ip policy.subnets_allow

module _ {IpNet IpAddr : Type 0} (show : IpNet → Text) (is_ipv4 : IpNet → Bool)
    (contains : IpNet → IpAddr → Bool) (policy : NetworkPolicy IpNet) where
  rules_of-loads :
      (mode : NetworkMode)
      → loads is_ipv4 (rules_of mode policy) ≡ all is_ipv4 (subnets_of mode policy)
  unfolding rules_of loads
  rules_of-loads NetworkMode.allow_all = loads-drop is_ipv4 policy.subnets_deny
  rules_of-loads NetworkMode.deny_all = loads-accept is_ipv4 policy.subnets_allow

  rules_of-accepts :
      (mode : NetworkMode)
      → policy.mode ≡ mode
      → (loopback : Bool) (ip : IpAddr) (default : Bool)
      → accepts contains (rules_of mode policy) loopback ip default
        ≡ expected_verdict show contains policy mode loopback ip
  unfolding rules_of accepts should_allow_ip
  rules_of-accepts NetworkMode.allow_all e loopback ip default =
      ground (arith, accepts-deny_list contains policy.subnets_deny loopback ip default)
  rules_of-accepts NetworkMode.deny_all e loopback ip default =
      ap (λ b. loopback || b) (accepts-allow_list contains policy.subnets_allow loopback ip default)

  -- `from_policy` prints rules that nftables takes exactly if the subnets that they name are all IPv4:
  -- the denied ones in the mode that allows all, the allowed ones in the mode that denies all.
  -- Whatever the chain's default verdict, the loaded rules accept a packet as follows: in the mode
  -- that allows all, exactly the addresses that `should_allow_ip` allows; in the mode that denies
  -- all, the loopback interface and the allowed subnets.
  pub from_policy-accepts :
      (rules : List (Rule IpNet)) × (from_policy show policy ≡ map (print show) rules)
      × ((loopback : Bool) (ip : IpAddr) (default : Bool)
          → verdict contains is_ipv4 rules loopback ip default ≡ (
              if all is_ipv4 (subnets_of policy.mode policy)
              then some (expected_verdict show contains policy policy.mode loopback ip)
              else none))
  unfolding from_policy
  from_policy-accepts = (
    rules_of policy.mode policy,
    rules_by_mode_lem show policy.mode policy,
    λ loopback ip default.
        rw (rules_of-loads policy.mode, rules_of-accepts policy.mode refl loopback ip default) refl,
  )
