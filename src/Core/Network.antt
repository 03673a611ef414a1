-- ===== src/Core/Network.antt =====
-- crates/rustbox-core/src/network.rs. A subnet is a value of the `ipnet` package, a parameter.
use rustbox.Prelude.{Text, List, []}
use rustbox.Prelude.Dict.{Dict}

pub data NetworkMode : Type 0 where
  allow_all deny_all : NetworkMode

pub record TransformRule : Type 0 where
  pub domain : Text
  pub headers : Dict Text

pub record NetworkPolicy (IpNet : Type 0) : Type 0 where
  pub mode : NetworkMode
  pub allow_domains : List Text
  pub subnets_allow : List IpNet
  pub subnets_deny : List IpNet
  pub transform_rules : List TransformRule

-- `NetworkPolicy::default()`
abbrev pub default : {IpNet : Type 0} → NetworkPolicy IpNet
default = record {
  mode = NetworkMode.allow_all;
  allow_domains = [];
  subnets_allow = [];
  subnets_deny = [];
  transform_rules = [];
}
