-- ===== src/Core/Command.antt =====
-- crates/rustbox-core/src/command.rs and metrics.rs
use rustbox.Prelude.{ℕ, Text, List, Option, Bool}
use rustbox.Prelude.Dict.{Dict}
use rustbox.Prelude.Int.{ℤ}

pub record CommandRequest : Type 0 where
  pub cmd : Text
  pub args : List Text
  pub cwd : Option Text
  pub env : Option (Dict Text)
  pub sudo : Bool
  pub detached : Bool

pub data CommandOutput : Type 0 where
  stdout stderr : List ℕ → CommandOutput
  exit : ℤ → CommandOutput

pub data CommandStatus : Type 0 where
  running : CommandStatus
  completed : ℤ → CommandStatus
  failed : Text → CommandStatus
  killed : CommandStatus

-- The `f64` is kept as its 64 bits: the program only moves it. The bits of 0.0 are 0.
pub record SandboxMetrics : Type 0 where
  pub cpu_usage_percent : ℕ
  pub memory_used_bytes : ℕ
  pub memory_total_bytes : ℕ
  pub network_rx_bytes : ℕ
  pub network_tx_bytes : ℕ
  pub disk_used_bytes : ℕ

-- `SandboxMetrics::default()`
abbrev pub default : SandboxMetrics
default = record {
  cpu_usage_percent = 0;
  memory_used_bytes = 0;
  memory_total_bytes = 0;
  network_rx_bytes = 0;
  network_tx_bytes = 0;
  disk_used_bytes = 0;
}
