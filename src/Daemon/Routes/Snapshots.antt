-- ===== src/Daemon/Routes/Snapshots.antt =====
-- crates/rustbox-daemon/src/routes/snapshots.rs
use rustbox.Prelude.{ℕ, Text, List, map, ok, lift, ◌>>=◌, ◌>>◌}
use rustbox.Core.Sandbox.{DateTime}
use rustbox.Storage.Snapshot.{SnapshotMetadata}
use rustbox.Daemon.Dto.{CreateSnapshotRequest, SnapshotResponse}
use rustbox.Daemon.Orchestrator
use rustbox.Daemon.Orchestrator.{Method, Services}

abbrev snapshot_response : SnapshotMetadata → SnapshotResponse
snapshot_response m = record {
  id = m.id;
  sandbox_id = m.sandbox_id;
  created_at = m.created_at;
  size_bytes = m.size_bytes;
  description = m.description;
}

module _ {IpNet B Sender Receiver S E : Type 0}
    (services : Services IpNet B Sender Receiver S E) where
  unfoldable pub list_snapshots :
      Method (Orchestrator.Orchestrator IpNet B Sender S) (ℕ × List SnapshotResponse)
  list_snapshots = do
    snapshots ← Orchestrator.list_snapshots services
    lift (ok (200, map snapshot_response snapshots))

  unfoldable pub create_snapshot :
      CreateSnapshotRequest
      → DateTime
      → Method (Orchestrator.Orchestrator IpNet B Sender S) (ℕ × SnapshotResponse)
  create_snapshot req now = do
    meta ← Orchestrator.create_snapshot services req.sandbox_id req.description now
    lift (ok (201, snapshot_response meta))

  unfoldable pub get_snapshot :
      Text → Method (Orchestrator.Orchestrator IpNet B Sender S) (ℕ × SnapshotResponse)
  get_snapshot id = do
    meta ← Orchestrator.get_snapshot services id
    lift (ok (200, snapshot_response meta))

  unfoldable pub delete_snapshot :
      Text → Method (Orchestrator.Orchestrator IpNet B Sender S) (ℕ × (Unit {0}))
  delete_snapshot id = do Orchestrator.delete_snapshot services id; lift (ok (200, tt))
