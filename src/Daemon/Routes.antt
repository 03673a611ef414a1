-- ===== src/Daemon/Routes.antt =====
-- crates/rustbox-daemon/src/routes: the handlers behind the HTTP paths. `axum` has matched the path
-- and read the body; a handler is a method of the daemon that gives a status and a body.
pub mod Sandboxes
pub mod Commands
pub mod Files
pub mod Snapshots
pub mod Lookups
pub mod Outputs
use rustbox.Prelude.{ℕ, Text, Result, ok, err}
use rustbox.Core.Error.{RustboxError}
use rustbox.Daemon.Orchestrator.{Method}
use rustbox.Daemon.ApiError.{into_response}

pub data Response (A : Type 0) : Type 0 where
  success : ℕ → A → Response A
  failure : ℕ → Text → Response A

abbrev pub respond : {A : Type 0} → Result RustboxError (ℕ × A) → Response A
respond (ok (status, body)) = Response.success status body
respond (err e) = let (status, message) = into_response e in Response.failure status message

-- A handler's response, with the state that it leaves.
abbrev pub serve : {O A : Type 0} → Method O (ℕ × A) → O → Response A × O
serve m o = let (r, o') = m o in (respond r, o')
