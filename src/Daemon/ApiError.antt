-- ===== src/Daemon/ApiError.antt =====
-- crates/rustbox-daemon/src/error.rs: the HTTP response to an error.
use rustbox.Prelude.{ℕ, Text}
use rustbox.Core.Error.{RustboxError, to_string}

-- The status code of a response.
status_code : RustboxError → ℕ
status_code (RustboxError.sandbox_not_found s) = 404
status_code (RustboxError.snapshot_not_found s) = 404
status_code (RustboxError.command_not_found s) = 404
status_code (RustboxError.sandbox_not_running s) = 409
status_code (RustboxError.invalid_config s) = 400
status_code _ = 500

-- The status and the field `error` of the JSON body.
unfoldable pub into_response : RustboxError → ℕ × Text
unfolding status_code
into_response e = (status_code e, to_string e)
