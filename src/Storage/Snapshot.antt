-- ===== src/Storage/Snapshot.antt =====
-- crates/rustbox-storage/src/snapshot.rs: the metadata of a snapshot, and the methods that the
-- daemon calls as an interface on a store's state `S` with errors `E`.
pub mod Store
pub mod Shelf
pub mod Refinement
pub mod History
pub mod Contents
use rustbox.Prelude.{ℕ, Text, List, Bool, Option, Exec}
use rustbox.Core.Sandbox.{DateTime}

pub record SnapshotMetadata : Type 0 where
  pub id : Text
  pub sandbox_id : Text
  pub created_at : DateTime
  pub expires_at : Option DateTime
  pub size_bytes : ℕ
  pub description : Option Text

pub record SnapshotStore (E S : Type 0) : Type 0 where
  pub save : SnapshotMetadata → Exec S E (Unit {0})
  pub get : Text → Exec S E (Option SnapshotMetadata)
  pub list_all : Exec S E (List SnapshotMetadata)
  pub delete : Text → Exec S E Bool
  pub list_expired : DateTime → Exec S E (List SnapshotMetadata)
  -- `Display` of the error
  pub to_string : E → Text
