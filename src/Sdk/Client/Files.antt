-- ===== src/Sdk/Client/Files.antt =====
-- The requests of crates/rustbox-sdk/src/client.rs about files.
use rustbox.Prelude.{ℕ, Text, codes, List, [], ◌∷◌, ◌++◌, none, some, Result, ok, Exec, ◌>>=◌, lift}
use rustbox.Sdk.Errors.{SdkError}
use rustbox.Sdk.Http.{Value, HttpMethod, Request, Reply, Json}
use rustbox.Sdk.Client.{RustboxClient, url, fetch, submit}

module _ {IpNet H : Type 0} (send : Request IpNet → H → Result Text Reply × H) (json : Json)
    (client : RustboxClient) where
  unfoldable pub upload_file : Text → Text → List ℕ → Exec H SdkError (Unit {0})
  unfolding url submit
  upload_file sandbox_id path content = submit send json (record {
    method = HttpMethod.post;
    url = url client (codes "/sandboxes/" ++ sandbox_id ++ codes "/files");
    query = [];
    json = some ((codes "path", Value.string path) ∷ (codes "content", Value.bytes content) ∷ []);
  })

  unfoldable pub download_file : Text → Text → Exec H SdkError (List ℕ)
  unfolding url fetch
  download_file sandbox_id path = do
    body ←
        fetch send json
          (record {
            method = HttpMethod.get;
            url = url client (codes "/sandboxes/" ++ sandbox_id ++ codes "/files");
            query = (codes "path", path) ∷ [];
            json = none;
          })
          json.read_file_body
    lift (ok body.content)

  unfoldable pub mkdir : Text → Text → Exec H SdkError (Unit {0})
  unfolding url submit
  mkdir sandbox_id path = submit send json (record {
    method = HttpMethod.post;
    url = url client (codes "/sandboxes/" ++ sandbox_id ++ codes "/dirs");
    query = [];
    json = some ((codes "path", Value.string path) ∷ []);
  })
