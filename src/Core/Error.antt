-- ===== src/Core/Error.antt =====
-- crates/rustbox-core/src/error.rs. Errors of `std::io` and `serde_json` are kept as their text.
use rustbox.Prelude.{Text, codes, ◌++◌}

pub data RustboxError : Type 0 where
  sandbox_not_found snapshot_not_found command_not_found sandbox_not_running : Text → RustboxError
  vm_backend storage network agent_comm timeout invalid_config : Text → RustboxError
  io json internal : Text → RustboxError

-- `Display`, by the `#[error]` attributes
unfoldable pub to_string : RustboxError → Text
to_string (RustboxError.sandbox_not_found s) = codes "sandbox not found: " ++ s
to_string (RustboxError.snapshot_not_found s) = codes "snapshot not found: " ++ s
to_string (RustboxError.command_not_found s) = codes "command not found: " ++ s
to_string (RustboxError.sandbox_not_running s) = codes "sandbox not running: " ++ s
to_string (RustboxError.vm_backend s) = codes "vm backend error: " ++ s
to_string (RustboxError.storage s) = codes "storage error: " ++ s
to_string (RustboxError.network s) = codes "network error: " ++ s
to_string (RustboxError.agent_comm s) = codes "agent communication error: " ++ s
to_string (RustboxError.timeout s) = codes "timeout: " ++ s
to_string (RustboxError.invalid_config s) = codes "invalid configuration: " ++ s
to_string (RustboxError.io s) = s
to_string (RustboxError.json s) = s
to_string (RustboxError.internal s) = s
