-- ===== src/Examples/Storage.antt =====
-- The snapshot store of crates/rustbox-storage/src/snapshot.rs and the reaper of
-- crates/rustbox-daemon/src/reaper.rs on two snapshots. A date is printed as one code that is the
-- date.
use rustbox.Prelude.{
  ◌^◌, All, false, Text, codes, List, [], ◌∷◌, Option, none, some, ok, err, ltb, if◌then◌else◌, ◌≡◌,
  refl, arith, text_eq,
}
use rustbox.Prelude.Int.{pos}
use rustbox.Core.Sandbox.{DateTime}
use rustbox.Storage.Snapshot.{SnapshotMetadata}
use rustbox.Storage.Snapshot.Store
use rustbox.Storage.Snapshot.Store.{Formats, Failure, text_lt, new_in_memory}
use rustbox.Storage.Snapshot.Refinement.{AreFaithful, IsDated}
use rustbox.Storage.Snapshot.History.{Write, history, shelf_after}
use rustbox.Storage.Snapshot.Contents.{Saves, get-history}
use rustbox.Daemon.Reaper.{reap_once}
use rustbox.Daemon.Reaper.Exact.{IsChronological, reap_once-history}

abbrev parse_date : Text → Option DateTime
parse_date (t ∷ []) = some t
parse_date _ = none

abbrev formats : Formats
formats = record {
  to_rfc3339 = λ t. t ∷ [];
  parse_from_rfc3339 = parse_date;
  to_sql = λ n. if ltb n (2 ^ 63) then ok (pos n) else err (codes "too large");
}

faithful : AreFaithful formats
faithful = record {
  parses = λ t h. refl;
  stores = λ n h. ground arith;
  refuses = λ n h. (codes "too large", ground arith);
}

chronological : IsChronological formats
unfolding text_lt
chronological s t hs ht = ground arith

abbrev snapshot : Text → Option DateTime → SnapshotMetadata
snapshot id expiry = record {
  id = id;
  sandbox_id = codes "box";
  created_at = 1;
  expires_at = expiry;
  size_bytes = 7;
  description = none;
}

abbrev writes : List Write
writes =
    Write.save (snapshot (codes "a") (some 5))
    ∷ Write.save (snapshot (codes "b") none)
    ∷ Write.save (snapshot (codes "b") (some 9))
    ∷ []

writes-IsDated : All (Saves IsDated) writes
writes-IsDated = (
  record { created = omega arith; expiry = λ t e. ground (arith, e) },
  (
    record { created = omega arith; expiry = λ t e. absurd (ground (arith, e)) },
    (record { created = omega arith; expiry = λ t e. ground (arith, e) }, tt),
  ),
)

get-history_example :
    (Store.get formats
      (codes "b")
      (history formats writes (record { rows = []; faults = []; poisoned = false }))).0
    ≡ ok (some (snapshot (codes "b") (some 9)))
unfolding shelf_after text_eq history Store.save
get-history_example = get-history formats faithful writes [] (codes "b") writes-IsDated refl

reap_once-history_example :
    (Store.get formats (codes "a") (reap_once formats 6 (history formats writes new_in_memory)).1).0
    ≡ ok none
unfolding shelf_after text_eq
reap_once-history_example =
    reap_once-history formats faithful chronological 6 (omega arith) writes (codes "a")
      writes-IsDated
