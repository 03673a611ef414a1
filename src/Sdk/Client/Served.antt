-- ===== src/Sdk/Client/Served.antt =====
-- What crates/rustbox-sdk/src/client.rs makes of the replies of the daemon's handlers in
-- crates/rustbox-daemon.
use rustbox.Prelude.{ℕ, Text, true, none, some, Result, ok, err, continue, lift, ◌≡◌, refl, ap, ◌∙◌}
use rustbox.Core.Error.{RustboxError, to_string}
use rustbox.Daemon.ApiError.{into_response}
use rustbox.Daemon.Orchestrator.{Method}
use rustbox.Daemon.Routes.{Response, respond, serve}
use rustbox.Sdk.Errors.{SdkError}
use rustbox.Sdk.Http.{Request, Reply, Json, is_success, message_of, check_error, decode}
use rustbox.Sdk.Client.{fetch}

-- The client's error for each error of the daemon.
abbrev pub sdk_error : RustboxError → SdkError
sdk_error (RustboxError.sandbox_not_found id) =
    SdkError.not_found (to_string (RustboxError.sandbox_not_found id))
sdk_error (RustboxError.snapshot_not_found id) =
    SdkError.not_found (to_string (RustboxError.snapshot_not_found id))
sdk_error (RustboxError.command_not_found id) =
    SdkError.not_found (to_string (RustboxError.command_not_found id))
sdk_error (RustboxError.sandbox_not_running id) =
    SdkError.conflict (to_string (RustboxError.sandbox_not_running id))
sdk_error (RustboxError.invalid_config m) =
    SdkError.bad_request (to_string (RustboxError.invalid_config m))
sdk_error e = SdkError.server_error (to_string e)

-- A handler's response as it goes over the wire.
abbrev pub reply_of : {A : Type 0} → (A → Text) → (Text → Text) → Response A → Reply
reply_of encode encode_error (Response.success status body) = record {
  status = status;
  body = ok (encode body);
}
reply_of encode encode_error (Response.failure status message) = record {
  status = status;
  body = ok (encode_error message);
}

module _ (json : Json) (encode_error : Text → Text)
    (reads_error : (message : Text) → json.error_field (encode_error message) ≡ some message) where
  abbrev error_reply : RustboxError → Reply
  error_reply e = record { status = (into_response e).0; body = ok (encode_error (to_string e)) }

  abbrev refusal : SdkError → Result SdkError Reply
  refusal e = err e

  -- The message of such a reply is the daemon's.
  carries :
      (kind : Text → SdkError) (message : Text)
      → refusal (kind (message_of json (encode_error message))) ≡ refusal (kind message)
  carries kind message =
      ap (λ o. refusal (kind (elim o [ some m ↦ m | none ↦ encode_error message ])))
        (reads_error message)

  check_error-into_response :
      (e : RustboxError) → check_error json (error_reply e) ≡ err (sdk_error e)
  unfolding into_response
  check_error-into_response (RustboxError.sandbox_not_found m) =
      carries SdkError.not_found (to_string (RustboxError.sandbox_not_found m))
  check_error-into_response (RustboxError.snapshot_not_found m) =
      carries SdkError.not_found (to_string (RustboxError.snapshot_not_found m))
  check_error-into_response (RustboxError.command_not_found m) =
      carries SdkError.not_found (to_string (RustboxError.command_not_found m))
  check_error-into_response (RustboxError.sandbox_not_running m) =
      carries SdkError.conflict (to_string (RustboxError.sandbox_not_running m))
  check_error-into_response (RustboxError.vm_backend m) =
      carries SdkError.server_error (to_string (RustboxError.vm_backend m))
  check_error-into_response (RustboxError.storage m) =
      carries SdkError.server_error (to_string (RustboxError.storage m))
  check_error-into_response (RustboxError.network m) =
      carries SdkError.server_error (to_string (RustboxError.network m))
  check_error-into_response (RustboxError.agent_comm m) =
      carries SdkError.server_error (to_string (RustboxError.agent_comm m))
  check_error-into_response (RustboxError.timeout m) =
      carries SdkError.server_error (to_string (RustboxError.timeout m))
  check_error-into_response (RustboxError.invalid_config m) =
      carries SdkError.bad_request (to_string (RustboxError.invalid_config m))
  check_error-into_response (RustboxError.io m) =
      carries SdkError.server_error (to_string (RustboxError.io m))
  check_error-into_response (RustboxError.json m) =
      carries SdkError.server_error (to_string (RustboxError.json m))
  check_error-into_response (RustboxError.internal m) =
      carries SdkError.server_error (to_string (RustboxError.internal m))

module _ {A B : Type 0} (view : A → B) where
  -- What the client returns for what a handler returns.
  abbrev pub answered : Result RustboxError (ℕ × A) → Result SdkError B
  answered (ok (status, a)) = ok (view a)
  answered (err e) = err (sdk_error e)

module _ {IpNet O A B : Type 0} (json : Json) (encode_error : Text → Text) (encode : A → Text)
    (view : A → B) (from_str : Text → Result Text B)
    (reads_error : (message : Text) → json.error_field (encode_error message) ≡ some message)
    (reads : (a : A) → from_str (encode a) ≡ ok (view a)) where
  fetch-respond :
      (request : Request IpNet) (r : Result RustboxError (ℕ × A)) (o : O)
      → ((status : ℕ) (a : A) → r ≡ ok (status, a) → is_success status ≡ true)
      → fetch (λ q h. (ok (reply_of encode encode_error (respond r)), o)) json request from_str o
        ≡ (answered view r, o)
  unfolding fetch into_response
  fetch-respond request (ok (status, a)) o fine = rw (fine status a refl, reads a) refl
  fetch-respond request (err e) o fine =
      ap (λ c. (continue c (λ reply. lift (decode from_str reply)) o))
        (check_error-into_response json encode_error reads_error e)

  -- Where the reply to a request is what a handler of the daemon responds, and JSON is read as it was
  -- written, the client returns the handler's result; an error of the daemon arrives as the client's
  -- error of its kind, with the same message; and the daemon is left as the handler leaves it.
  pub fetch-serve :
      (send : Request IpNet → O → Result Text Reply × O) (request : Request IpNet)
      (handler : Method O (ℕ × A)) (o : O)
      → send request o
        ≡ (ok (reply_of encode encode_error (serve handler o).0), (serve handler o).1)
      → ((status : ℕ) (a : A) → (handler o).0 ≡ ok (status, a) → is_success status ≡ true)
      → fetch send json request from_str o ≡ (answered view (handler o).0, (handler o).1)
  unfolding fetch
  fetch-serve send request handler o sent fine =
      ap (λ p. fetch (λ q h. p) json request from_str o) sent
      ∙ fetch_after (handler o).0 (handler o).1 fine
    where
      fetch_after :
          (r : Result RustboxError (ℕ × A)) (o' : O)
          → ((status : ℕ) (a : A) → r ≡ ok (status, a) → is_success status ≡ true)
          → fetch
              (λ q h. (ok (reply_of encode encode_error (respond r)), o'))
              json
              request
              from_str
              o
            ≡ (answered view r, o')
      fetch_after r o' fine = fetch-respond request r o' fine
