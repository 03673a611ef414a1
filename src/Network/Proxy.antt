-- ===== src/Network/Proxy.antt =====
-- crates/rustbox-network/src/proxy.rs: the transparent proxy for the domain rules of a policy.
-- `Request` holds what it does with texts, `Conversation` and `Handler` what it does
-- with connections.
pub mod Request
pub mod HeaderEnd
pub mod Injection
pub mod Ports
pub mod Need
pub mod Conversation
pub mod Reading
pub mod Relay
pub mod Handler
use rustbox.Prelude.{Bool, true, false, not, ◌&&◌, ◌||◌, is_empty}
use rustbox.Core.Network.{NetworkMode, NetworkPolicy}

-- `matches!(policy.mode, NetworkMode::DenyAll)`
abbrev is_deny_all : NetworkMode → Bool
is_deny_all NetworkMode.deny_all = true
is_deny_all NetworkMode.allow_all = false

unfoldable pub needs_domain_proxy : {IpNet : Type 0} → NetworkPolicy IpNet → Bool
needs_domain_proxy policy =
    not (is_empty policy.transform_rules)
    || (not (is_empty policy.allow_domains) && is_deny_all policy.mode)
