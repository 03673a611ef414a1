-- ===== src/Sdk/Client/Commands.antt =====
-- The requests of crates/rustbox-sdk/src/client.rs about commands.
use rustbox.Prelude.{
  Text, codes, List, [], ◌∷◌, ◌++◌, Bool, Option, none, some, Result, ok, Exec, ◌>>=◌, lift,
}
use rustbox.Prelude.Dict.{Dict}
use rustbox.Sdk.Errors.{SdkError}
use rustbox.Sdk.Http.{ExecResponseBody, CommandInfo, Value, HttpMethod, Request, Reply, Json}
use rustbox.Sdk.Client.{RustboxClient, url, or_null, fetch, submit}

module _ {IpNet H : Type 0} (send : Request IpNet → H → Result Text Reply × H) (json : Json)
    (client : RustboxClient) where
  unfoldable pub get_command : Text → Text → Exec H SdkError CommandInfo
  unfolding url fetch
  get_command sandbox_id cmd_id =
      fetch send json
        (record {
          method = HttpMethod.get;
          url = url client (codes "/sandboxes/" ++ sandbox_id ++ codes "/commands/" ++ cmd_id);
          query = [];
          json = none;
        })
        json.command_info

  unfoldable pub kill_command : Text → Text → Exec H SdkError (Unit {0})
  unfolding url submit
  kill_command sandbox_id cmd_id = submit send json (record {
    method = HttpMethod.post;
    url =
        url client
          (codes "/sandboxes/" ++ sandbox_id ++ codes "/commands/" ++ cmd_id ++ codes "/kill");
    query = [];
    json = none;
  })

  -- The command's identifier
  abbrev command_id_of : ExecResponseBody → Exec H SdkError Text
  command_id_of body = lift (ok body.command_id)

  unfoldable pub exec : Text → Text → List Text → Exec H SdkError Text
  unfolding url fetch
  exec sandbox_id cmd args = do
    body ←
        fetch send json
          (record {
            method = HttpMethod.post;
            url = url client (codes "/sandboxes/" ++ sandbox_id ++ codes "/commands");
            query = [];
            json = some ((codes "cmd", Value.string cmd) ∷ (codes "args", Value.strings args) ∷ []);
          })
          json.exec_response
    command_id_of body

  unfoldable pub exec_full :
      Text
      → Text
      → List Text
      → Option Text
      → Option (Dict Text)
      → Bool
      → Bool
      → Exec H SdkError Text
  unfolding url fetch
  exec_full sandbox_id cmd args cwd env sudo detached = do
    body ←
        fetch send json
          (record {
            method = HttpMethod.post;
            url = url client (codes "/sandboxes/" ++ sandbox_id ++ codes "/commands");
            query = [];
            json = some (
                (codes "cmd", Value.string cmd)
                ∷ (codes "args", Value.strings args)
                ∷ (codes "cwd", or_null Value.string cwd)
                ∷ (codes "env", or_null Value.object env)
                ∷ (codes "sudo", Value.bool sudo)
                ∷ (codes "detached", Value.bool detached)
                ∷ []);
          })
          json.exec_response
    command_id_of body
