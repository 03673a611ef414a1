-- ===== src/Vm/Docker/Network/Verdicts.antt =====
-- What the rules of crates/rustbox-vm/src/docker/network.rs do with the packets of containers, and how
-- that compares with policy.rs of crates/rustbox-network.
use rustbox.Prelude.{
  Text, List, [], ◌∷◌, Bool, true, false, ◌&&◌, Option, none, some, text_eq, if◌then◌else◌,
}
use rustbox.Vm.Docker.Network.Chain.{Rule}

abbrev or_else : Option Bool → Option Bool → Option Bool
or_else none o = o
or_else (some b) o = some b

module _ {IpNet IpAddr : Type 0} (contains : IpNet → IpAddr → Bool) (source : Text)
    (ip : IpAddr) where
  -- What a rule decides on the first packet of a connection from a source to an address.
  abbrev decides : Rule IpNet → Option Bool
  decides (Rule.established address) = none
  decides (Rule.subnet address net accept) =
      if text_eq address source && contains net ip then some accept else none
  decides (Rule.source_drop address) = if text_eq address source then some false else none

  -- The first rule that decides, if one does.
  unfoldable pub verdict : List (Rule IpNet) → Option Bool
  verdict [] = none
  verdict (rule ∷ rules) = or_else (decides rule) (verdict rules)

-- A packet on which no rule decides passes.
abbrev pub passes : Option Bool → Bool
passes none = true
passes (some b) = b
