-- ===== src/Sdk/Client/Snapshots.antt =====
-- The requests of crates/rustbox-sdk/src/client.rs about snapshots.
use rustbox.Prelude.{Text, codes, List, [], ◌∷◌, ◌++◌, Option, none, some, Result, Exec}
use rustbox.Sdk.Errors.{SdkError}
use rustbox.Sdk.Http.{SnapshotInfo, Value, HttpMethod, Request, Reply, Json}
use rustbox.Sdk.Client.{RustboxClient, url, or_null, fetch, submit}

module _ {IpNet H : Type 0} (send : Request IpNet → H → Result Text Reply × H) (json : Json)
    (client : RustboxClient) where
  unfoldable pub create_snapshot : Text → Option Text → Exec H SdkError SnapshotInfo
  unfolding url fetch
  create_snapshot sandbox_id description =
      fetch send json
        (record {
          method = HttpMethod.post;
          url = url client (codes "/snapshots");
          query = [];
          json = some (
              (codes "sandbox_id", Value.string sandbox_id)
              ∷ (codes "description", or_null Value.string description)
              ∷ []);
        })
        json.snapshot_info

  unfoldable pub get_snapshot : Text → Exec H SdkError SnapshotInfo
  unfolding url fetch
  get_snapshot id =
      fetch send json
        (record {
          method = HttpMethod.get;
          url = url client (codes "/snapshots/" ++ id);
          query = [];
          json = none;
        })
        json.snapshot_info

  unfoldable pub list_snapshots : Exec H SdkError (List SnapshotInfo)
  unfolding url fetch
  list_snapshots =
      fetch send json
        (record {
          method = HttpMethod.get;
          url = url client (codes "/snapshots");
          query = [];
          json = none;
        })
        json.snapshot_infos

  unfoldable pub delete_snapshot : Text → Exec H SdkError (Unit {0})
  unfolding url submit
  delete_snapshot id = submit send json (record {
    method = HttpMethod.delete;
    url = url client (codes "/snapshots/" ++ id);
    query = [];
    json = none;
  })
