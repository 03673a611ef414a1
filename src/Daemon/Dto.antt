-- ===== src/Daemon/Dto.antt =====
-- crates/rustbox-daemon/src/dto.rs: the bodies of requests and responses. A request is as `serde`
-- reads it, with the defaults below for the fields that are absent.
use rustbox.Prelude.{ℕ, Text, List, Option, Bool}
use rustbox.Prelude.Dict.{Dict}
use rustbox.Prelude.Int.{ℤ}
use rustbox.Core.Network.{NetworkPolicy}
use rustbox.Core.Sandbox.{CpuCount, DateTime, Runtime, SandboxSource, SandboxStatus}
use rustbox.Core.Command.{CommandStatus}

pub record CreateSandboxRequest (IpNet : Type 0) : Type 0 where
  pub runtime : Runtime
  pub cpu_count : CpuCount
  pub timeout_secs : ℕ
  pub env : Dict Text
  pub ports : List ℕ
  pub network_policy : NetworkPolicy IpNet
  pub source : Option SandboxSource

abbrev pub default_cpu : CpuCount
default_cpu = CpuCount.one

abbrev pub default_timeout : ℕ
default_timeout = 300

pub record SandboxResponse : Type 0 where
  pub id : Text
  pub status : SandboxStatus
  pub runtime : Runtime
  pub created_at : DateTime
  pub started_at : Option DateTime
  pub stopped_at : Option DateTime

pub record ExecRequest : Type 0 where
  pub cmd : Text
  pub args : List Text
  pub cwd : Option Text
  pub env : Option (Dict Text)
  pub sudo : Bool
  pub detached : Bool

pub record ExecResponse : Type 0 where
  pub command_id : Text

pub record CommandOutputEntry : Type 0 where
  pub stream : Text
  pub bytes : Option (List ℕ)
  pub exit_code : Option ℤ

pub record CommandResponse : Type 0 where
  pub command_id : Text
  pub status : CommandStatus
  pub output : List CommandOutputEntry

pub record WriteFileRequest : Type 0 where
  pub path : Text
  pub content : List ℕ

pub record ReadFileResponse : Type 0 where
  pub path : Text
  pub content : List ℕ

pub record MkdirRequest : Type 0 where
  pub path : Text

pub record CreateSnapshotRequest : Type 0 where
  pub sandbox_id : Text
  pub description : Option Text

pub record SnapshotResponse : Type 0 where
  pub id : Text
  pub sandbox_id : Text
  pub created_at : DateTime
  pub size_bytes : ℕ
  pub description : Option Text

pub record UpdateTimeoutRequest : Type 0 where
  pub timeout_secs : ℕ

pub record UpdateNetworkPolicyRequest (IpNet : Type 0) : Type 0 where
  pub network_policy : NetworkPolicy IpNet
