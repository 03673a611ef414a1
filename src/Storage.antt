-- ===== src/Storage.antt =====
-- crates/rustbox-storage: snapshot metadata and its store.
pub mod Snapshot
