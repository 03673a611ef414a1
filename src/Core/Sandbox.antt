-- ===== src/Core/Sandbox.antt =====
-- crates/rustbox-core/src/sandbox.rs, and the identifiers of id.rs, each a `String` in a struct
-- that prints as the string itself.
use rustbox.Prelude.{ℕ, ◌*◌, ◌/◌, Text, List, Option}
use rustbox.Prelude.Dict.{Dict}
use rustbox.Core.Network.{NetworkPolicy}

abbrev pub SandboxId : Type 0
SandboxId = Text

abbrev pub SnapshotId : Type 0
SnapshotId = Text

abbrev pub CommandId : Type 0
CommandId = Text

pub data SandboxStatus : Type 0 where
  pending running stopping stopped failed : SandboxStatus

pub data Runtime : Type 0 where
  node24 node22 python313 : Runtime

pub data CpuCount : Type 0 where
  one two four eight : CpuCount

-- `std::time::Duration`, in nanoseconds
abbrev pub Duration : Type 0
Duration = ℕ

-- `Duration::from_secs` and `Duration::as_secs`
abbrev pub from_secs : ℕ → Duration
from_secs s = s * 1_000_000_000

abbrev pub as_secs : Duration → ℕ
as_secs d = d / 1_000_000_000

-- `DateTime<Utc>`, in nanoseconds since an epoch before every date in use
abbrev pub DateTime : Type 0
DateTime = ℕ

pub data SandboxSource : Type 0 where
  git : Text → Option Text → Option Text → Option ℕ → Option Text → SandboxSource
  tarball : Text → SandboxSource
  snapshot : SnapshotId → SandboxSource

pub record SandboxConfig (IpNet : Type 0) : Type 0 where
  pub runtime : Runtime
  pub cpu_count : CpuCount
  pub timeout : Duration
  pub env : Dict Text
  pub ports : List ℕ
  pub network_policy : NetworkPolicy IpNet
  pub source : Option SandboxSource

pub record Sandbox (IpNet : Type 0) : Type 0 where
  pub id : SandboxId
  pub config : SandboxConfig IpNet
  pub status : SandboxStatus
  pub created_at : DateTime
  pub started_at : Option DateTime
  pub stopped_at : Option DateTime
