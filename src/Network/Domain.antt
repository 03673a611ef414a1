-- ===== src/Network/Domain.antt =====
-- crates/rustbox-network/src/domain.rs and credential.rs. `str::to_lowercase` follows the Unicode
-- tables and is a parameter.
pub mod Matching
use rustbox.Prelude.{
  Text, Bool, false, Option, none, some, List, codes, text_eq, ◌++◌, strip_prefix, ends_with,
  if◌then◌else◌, find,
}
use rustbox.Core.Network.{TransformRule}

module _ (to_lowercase : Text → Text) where
  unfoldable pub domain_matches : Text → Text → Bool
  unfolding text_eq strip_prefix ends_with
  domain_matches pattern domain =
      let pattern' = to_lowercase pattern in
      let domain' = to_lowercase domain in
      elim (strip_prefix (codes "*.") pattern') [
        | some suffix ↦
            if text_eq domain' suffix then false else ends_with domain' (codes "." ++ suffix)
        | none ↦ text_eq domain' pattern'
      ]

  unfoldable pub find_credential_headers : Text → List TransformRule → Option TransformRule
  find_credential_headers domain rules = find (λ rule. domain_matches rule.domain domain) rules
