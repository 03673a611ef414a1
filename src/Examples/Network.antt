-- ===== src/Examples/Network.antt =====
-- crates/rustbox-network on concrete policies. Addresses are numbers and a subnet is the /8 with
-- this first byte, which stands for `ipnet`; lower case is ASCII's.
use rustbox.Prelude.{
  ℕ, ◌+◌, ◌*◌, ◌/◌, ◌^◌, Text, codes, List, [], ◌∷◌, map, Bool, true, false, some, ◌≡◌, ◌↔◌, refl,
  leb, ltb, if◌then◌else◌, ◌&&◌, ◌==◌,
}
use rustbox.Core.Network.{NetworkMode, NetworkPolicy, TransformRule}
use rustbox.Network.Domain.{domain_matches}
use rustbox.Network.Domain.Matching.{Covers, domain_matches_iff}
use rustbox.Network.Policy.{PolicyDecision, evaluate_connection}
use rustbox.Network.Policy.Decisions.{
  IsFirstMatch, IsPlainlyAllowed, evaluate_connection-transform_iff, evaluate_connection-allow_iff,
}
use rustbox.Network.Firewall.{from_policy}
use rustbox.Network.Firewall.Verdicts.{Rule, print, verdict, expected_verdict, from_policy-accepts}

abbrev pub ascii_lowercase : Text → Text
ascii_lowercase = map (λ c. if leb b'A' c && leb c b'Z' then c + 32 else c)

abbrev pub contains : ℕ → ℕ → Bool
contains net ip = ip / 2 ^ 24 == net

abbrev is_ipv4 : ℕ → Bool
is_ipv4 net = ltb net 256

abbrev show : ℕ → Text
show net = (net + b'0') ∷ codes ".0.0.0/8"

abbrev pub rule : TransformRule
rule = record {
  domain = codes "api.example.com";
  headers = (codes "Authorization", codes "Bearer tok") ∷ [];
}

abbrev pub policy : NetworkPolicy ℕ
policy = record {
  mode = NetworkMode.deny_all;
  allow_domains = codes "*.github.com" ∷ [];
  subnets_allow = 7 ∷ [];
  subnets_deny = 7 ∷ [];
  transform_rules = rule ∷ [];
}

wildcard_match :
    domain_matches ascii_lowercase (codes "*.Example.COM") (codes "Sub.EXAMPLE.com") ≡ true
unfolding domain_matches
wildcard_match = refl

wildcard_rejects_bare :
    domain_matches ascii_lowercase (codes "*.example.com") (codes "example.com") ≡ false
unfolding domain_matches
wildcard_rejects_bare = refl

domain_matches_iff_example :
    (domain_matches ascii_lowercase (codes "*.Example.COM") (codes "Sub.EXAMPLE.com") ≡ true)
    ↔ Covers (codes "*.example.com") (codes "sub.example.com")
domain_matches_iff_example =
    domain_matches_iff ascii_lowercase (codes "*.Example.COM") (codes "Sub.EXAMPLE.com")

evaluate_connection-transform_iff_example :
    (evaluate_connection ascii_lowercase contains policy (codes "api.example.com") (7 * 2 ^ 24)
      ≡ PolicyDecision.allow_with_transform rule)
    ↔ IsFirstMatch ascii_lowercase (codes "api.example.com") (rule ∷ []) rule
evaluate_connection-transform_iff_example =
    evaluate_connection-transform_iff ascii_lowercase contains policy (codes "api.example.com")
      (7 * 2 ^ 24) rule

evaluate_connection-allow_iff_example :
    (evaluate_connection ascii_lowercase contains policy (codes "x.github.com") (7 * 2 ^ 24)
      ≡ PolicyDecision.allow)
    ↔ IsPlainlyAllowed ascii_lowercase contains policy
        (codes "x.github.com")
        (7 * 2 ^ 24)
        NetworkMode.deny_all
evaluate_connection-allow_iff_example =
    evaluate_connection-allow_iff ascii_lowercase contains policy (codes "x.github.com")
      (7 * 2 ^ 24)

from_policy-accepts_example :
    (rules : List (Rule ℕ)) × (from_policy show policy ≡ map (print show) rules)
    × ((loopback : Bool) (ip : ℕ) (default : Bool)
        → verdict contains is_ipv4 rules loopback ip default
          ≡ some (expected_verdict show contains policy NetworkMode.deny_all loopback ip))
from_policy-accepts_example = from_policy-accepts show is_ipv4 contains policy
