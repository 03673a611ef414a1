-- ===== src/Sdk/Errors.antt =====
-- crates/rustbox-sdk/src/error.rs. Errors of `reqwest` are kept as their text.
use rustbox.Prelude.{ℕ, Text, ◌==◌, if◌then◌else◌}

pub data SdkError : Type 0 where
  not_found conflict bad_request server_error request json : Text → SdkError

abbrev pub from_status : ℕ → Text → SdkError
from_status status message =
    if status == 404
    then SdkError.not_found message
    else if status == 409
    then SdkError.conflict message
    else if status == 400
    then SdkError.bad_request message
    else SdkError.server_error message
