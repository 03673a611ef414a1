-- ===== src/Sdk/Http.antt =====
-- The requests and replies of crates/rustbox-sdk/src/client.rs, and the records that it reads from
-- replies.
use rustbox.Prelude.{
  ℕ, Text, codes, List, [], ◌∷◌, ◌++◌, Bool, Option, none, some, Result, ok, err, ◌&&◌, leb, ltb,
  if◌then◌else◌, map_err,
}
use rustbox.Prelude.Dict.{Dict}
use rustbox.Prelude.Int.{ℤ}
use rustbox.Core.Network.{NetworkPolicy}
use rustbox.Core.Sandbox.{Runtime, CpuCount, SandboxSource, SandboxStatus, DateTime}
use rustbox.Core.Command.{CommandStatus, SandboxMetrics}
use rustbox.Sdk.Errors.{SdkError, from_status}

pub record SandboxInfo : Type 0 where
  pub id : Text
  pub status : SandboxStatus
  pub runtime : Runtime
  pub created_at : DateTime
  pub started_at : Option DateTime
  pub stopped_at : Option DateTime

pub record ExecResponseBody : Type 0 where
  pub command_id : Text

pub record CommandOutputEntry : Type 0 where
  pub stream : Text
  pub bytes : Option (List ℕ)
  pub exit_code : Option ℤ

pub record CommandInfo : Type 0 where
  pub command_id : Text
  pub status : CommandStatus
  pub output : List CommandOutputEntry

pub record ReadFileBody : Type 0 where
  pub path : Text
  pub content : List ℕ

pub record SnapshotInfo : Type 0 where
  pub id : Text
  pub sandbox_id : Text
  pub created_at : DateTime
  pub size_bytes : ℕ
  pub description : Option Text

-- A value in the JSON object that is a request's body.
pub data Value (IpNet : Type 0) : Type 0 where
  null : Value IpNet
  bool : Bool → Value IpNet
  number : ℕ → Value IpNet
  string : Text → Value IpNet
  bytes : List ℕ → Value IpNet
  numbers : List ℕ → Value IpNet
  strings : List Text → Value IpNet
  object : Dict Text → Value IpNet
  runtime : Runtime → Value IpNet
  cpu_count : CpuCount → Value IpNet
  source : SandboxSource → Value IpNet
  policy : NetworkPolicy IpNet → Value IpNet

pub data HttpMethod : Type 0 where
  get post patch delete : HttpMethod

pub record Request (IpNet : Type 0) : Type 0 where
  pub method : HttpMethod
  pub url : Text
  pub query : Dict Text
  pub json : Option (Dict (Value IpNet))

-- A status, and the body or the error of reading it.
pub record Reply : Type 0 where
  pub status : ℕ
  pub body : Result Text Text

-- `from_str` for each type that is read, and the string under `error` in a JSON value
pub record Json : Type 0 where
  pub sandbox_info : Text → Result Text SandboxInfo
  pub sandbox_infos : Text → Result Text (List SandboxInfo)
  pub exec_response : Text → Result Text ExecResponseBody
  pub command_info : Text → Result Text CommandInfo
  pub read_file_body : Text → Result Text ReadFileBody
  pub snapshot_info : Text → Result Text SnapshotInfo
  pub snapshot_infos : Text → Result Text (List SnapshotInfo)
  pub metrics : Text → Result Text SandboxMetrics
  pub error_field : Text → Option Text

-- `status.is_success()`
abbrev pub is_success : ℕ → Bool
is_success status = leb 200 status && ltb status 300

-- `text().await.unwrap_or_default()`
abbrev text_of : Reply → Text
text_of reply = elim reply.body [ ok body ↦ body | err e ↦ [] ]

-- The message of a reply with an error: the field `error` of its JSON, or the body itself.
abbrev pub message_of : Json → Text → Text
message_of json body = elim (json.error_field body) [ some message ↦ message | none ↦ body ]

abbrev pub check_error : Json → Reply → Result SdkError Reply
check_error json reply =
    if is_success reply.status
    then ok reply
    else err (from_status reply.status (message_of json (text_of reply)))

-- `resp.json().await?`
abbrev pub decode : {A : Type 0} → (Text → Result Text A) → Reply → Result SdkError A
decode from_str reply = elim reply.body [
  | err e ↦ err (SdkError.request e)
  | ok body ↦ map_err SdkError.request (from_str body)
]

-- `CreateSandboxBody`, and how it is written: what is absent or empty is left out.
pub record CreateSandboxBody : Type 0 where
  pub runtime : Runtime
  pub cpu_count : Option CpuCount
  pub timeout_secs : ℕ
  pub env : Dict Text
  pub ports : List ℕ
  pub source : Option SandboxSource

module _ {IpNet : Type 0} where
  cpu_field : Option CpuCount → Dict (Value IpNet)
  cpu_field none = []
  cpu_field (some n) = (codes "cpu_count", Value.cpu_count n) ∷ []

  env_field : Dict Text → Dict (Value IpNet)
  env_field [] = []
  env_field (entry ∷ env) = (codes "env", Value.object (entry ∷ env)) ∷ []

  ports_field : List ℕ → Dict (Value IpNet)
  ports_field [] = []
  ports_field (port ∷ ports) = (codes "ports", Value.numbers (port ∷ ports)) ∷ []

  source_field : Option SandboxSource → Dict (Value IpNet)
  source_field none = []
  source_field (some s) = (codes "source", Value.source s) ∷ []

  unfoldable pub fields_of : CreateSandboxBody → Dict (Value IpNet)
  unfolding cpu_field env_field ports_field source_field
  fields_of body =
      (codes "runtime", Value.runtime body.runtime)
      ∷ (cpu_field body.cpu_count
          ++ (codes "timeout_secs", Value.number body.timeout_secs)
            ∷ (env_field body.env ++ ports_field body.ports ++ source_field body.source))
