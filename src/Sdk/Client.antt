-- ===== src/Sdk/Client.antt =====
-- crates/rustbox-sdk/src/client.rs. `send` is a request over `reqwest` up to the head of its reply.
pub mod Sandboxes
pub mod Commands
pub mod Files
pub mod Snapshots
pub mod Served
pub mod Routed
use rustbox.Prelude.{
  ℕ, Text, codes, List, [], ◌∷◌, ◌++◌, Bool, true, false, Option, none, some, Result, ok, err, Exec,
  ◌>>=◌, lift, mapping_err, ◌==◌, if◌then◌else◌,
}
use rustbox.Prelude.Dict.{Dict}
use rustbox.Core.Network.{NetworkPolicy}
use rustbox.Core.Sandbox.{Runtime}
use rustbox.Core.Command.{SandboxMetrics}
use rustbox.Sdk.Errors.{SdkError}
use rustbox.Sdk.Http.{
  SandboxInfo, ExecResponseBody, CommandInfo, ReadFileBody, SnapshotInfo, Value, HttpMethod,
  Request, Reply, Json, check_error, decode, fields_of,
}

pub record RustboxClient : Type 0 where
  pub base_url : Text

-- One slash behind a text without slashes at its end.
abbrev push_slash : ℕ → Text → Text
push_slash b rest = elim rest [ [] ↦ if b == 47 then [] else b ∷ [] | c ∷ more ↦ b ∷ c ∷ more ]

-- `trim_end_matches('/')`
unfoldable pub trim_slashes : Text → Text
trim_slashes [] = []
trim_slashes (b ∷ s) = push_slash b (trim_slashes s)

unfoldable pub new : Text → RustboxClient
unfolding trim_slashes
new base_url = record { base_url = trim_slashes base_url }

unfoldable pub url : RustboxClient → Text → Text
url client path = client.base_url ++ codes "/v1" ++ path

-- An option in `json!`
abbrev pub or_null : {IpNet A : Type 0} → (A → Value IpNet) → Option A → Value IpNet
or_null f none = Value.null
or_null f (some a) = f a

module _ {IpNet H : Type 0} (send : Request IpNet → H → Result Text Reply × H) (json : Json) where
  -- A request, and the test of its reply.
  abbrev pub checked : Request IpNet → Exec H SdkError Reply
  checked request = do
    reply ← mapping_err SdkError.request (send request)
    lift (check_error json reply)

  -- The same, and the body.
  unfoldable pub fetch : {A : Type 0} → Request IpNet → (Text → Result Text A) → Exec H SdkError A
  fetch request from_str = do reply ← checked request; lift (decode from_str reply)

  -- The same without one.
  unfoldable pub submit : Request IpNet → Exec H SdkError (Unit {0})
  submit request = do _reply ← checked request; lift (ok tt)
