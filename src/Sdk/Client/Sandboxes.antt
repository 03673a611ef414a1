-- ===== src/Sdk/Client/Sandboxes.antt =====
-- The requests of crates/rustbox-sdk/src/client.rs about sandboxes, their policies and metrics.
use rustbox.Prelude.{ℕ, Text, codes, List, [], ◌∷◌, ◌++◌, none, some, Result, Exec}
use rustbox.Core.Network.{NetworkPolicy}
use rustbox.Core.Sandbox.{Runtime}
use rustbox.Core.Command.{SandboxMetrics}
use rustbox.Sdk.Errors.{SdkError}
use rustbox.Sdk.Http.{SandboxInfo, Value, HttpMethod, Request, Reply, Json, fields_of}
use rustbox.Sdk.Client.{RustboxClient, url, fetch, submit}

module _ {IpNet H : Type 0} (send : Request IpNet → H → Result Text Reply × H) (json : Json)
    (client : RustboxClient) where
  unfoldable pub create_sandbox : Runtime → ℕ → Exec H SdkError SandboxInfo
  unfolding url fetch fields_of
  create_sandbox runtime timeout_secs =
      fetch send json
        (record {
          method = HttpMethod.post;
          url = url client (codes "/sandboxes");
          query = [];
          json = some (
              fields_of (record {
                runtime = runtime;
                cpu_count = none;
                timeout_secs = timeout_secs;
                env = [];
                ports = [];
                source = none;
              }));
        })
        json.sandbox_info

  unfoldable pub get_sandbox : Text → Exec H SdkError SandboxInfo
  unfolding url fetch
  get_sandbox id =
      fetch send json
        (record {
          method = HttpMethod.get;
          url = url client (codes "/sandboxes/" ++ id);
          query = [];
          json = none;
        })
        json.sandbox_info

  unfoldable pub list_sandboxes : Exec H SdkError (List SandboxInfo)
  unfolding url fetch
  list_sandboxes =
      fetch send json
        (record {
          method = HttpMethod.get;
          url = url client (codes "/sandboxes");
          query = [];
          json = none;
        })
        json.sandbox_infos

  unfoldable pub delete_sandbox : Text → Exec H SdkError (Unit {0})
  unfolding url submit
  delete_sandbox id = submit send json (record {
    method = HttpMethod.delete;
    url = url client (codes "/sandboxes/" ++ id);
    query = [];
    json = none;
  })

  unfoldable pub update_timeout : Text → ℕ → Exec H SdkError SandboxInfo
  unfolding url fetch
  update_timeout id timeout_secs =
      fetch send json
        (record {
          method = HttpMethod.patch;
          url = url client (codes "/sandboxes/" ++ id ++ codes "/timeout");
          query = [];
          json = some ((codes "timeout_secs", Value.number timeout_secs) ∷ []);
        })
        json.sandbox_info

  unfoldable pub update_network_policy : Text → NetworkPolicy IpNet → Exec H SdkError SandboxInfo
  unfolding url fetch
  update_network_policy id policy =
      fetch send json
        (record {
          method = HttpMethod.patch;
          url = url client (codes "/sandboxes/" ++ id ++ codes "/network-policy");
          query = [];
          json = some ((codes "network_policy", Value.policy policy) ∷ []);
        })
        json.sandbox_info

  unfoldable pub get_metrics : Text → Exec H SdkError SandboxMetrics
  unfolding url fetch
  get_metrics sandbox_id =
      fetch send json
        (record {
          method = HttpMethod.get;
          url = url client (codes "/sandboxes/" ++ sandbox_id ++ codes "/metrics");
          query = [];
          json = none;
        })
        json.metrics
