-- ===== src/Sdk.antt =====
-- crates/rustbox-sdk: the client of the daemon's HTTP interface. `reqwest` and `serde_json` are
-- parameters.
pub mod Errors
pub mod Http
pub mod Client
