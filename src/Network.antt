-- ===== src/Network.antt =====
-- crates/rustbox-network: policy evaluation, firewall rules and the transparent proxy.
pub mod Domain
pub mod Policy
pub mod Firewall
pub mod Proxy
pub mod Redirect
