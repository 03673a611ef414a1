-- ===== src/Daemon/Reaper.antt =====
-- crates/rustbox-daemon/src/reaper.rs. `now` is the clock that `list_expired` reads. A panic of the
-- store goes through; an error is only logged.
pub mod Exact
use rustbox.Prelude.{ℕ, ◌+◌, List, [], ◌∷◌, true, false, ok, err, Exec}
use rustbox.Core.Sandbox.{DateTime}
use rustbox.Storage.Snapshot.{SnapshotMetadata}
use rustbox.Storage.Snapshot.Store
use rustbox.Storage.Snapshot.Store.{Connection, Failure, Formats}

module _ (formats : Formats) where
  -- The loop over the expired snapshots.
  unfoldable pub reap : List SnapshotMetadata → ℕ → Exec Connection Failure ℕ
  reap [] deleted c = (ok deleted, c)
  reap (snap ∷ snaps) deleted c =
      let (r, c') = Store.delete formats snap.id c in
      elim r [
        | ok true ↦ reap snaps (deleted + 1) c'
        | ok false ↦ reap snaps deleted c'
        | err (Failure.error e) ↦ reap snaps deleted c'
        | err Failure.panicked ↦ (err Failure.panicked, c')
      ]

  unfoldable pub reap_once : DateTime → Exec Connection Failure ℕ
  unfolding reap
  reap_once now c =
      let (r, c') = Store.list_expired formats now c in
      elim r [
        | ok expired ↦ reap expired 0 c'
        | err (Failure.error e) ↦ (ok 0, c')
        | err Failure.panicked ↦ (err Failure.panicked, c')
      ]
