-- ===== src/Vm/CaTrust.antt =====
-- crates/rustbox-vm/src/ca_trust.rs
pub mod Ends
use rustbox.Prelude.{
  ℕ, zero, suc, Text, codes, List, [], ◌++◌, false, Option, none, some, Result, ok, err, Exec,
  length,
}
use rustbox.Prelude.Int.{ℤ, pos, negsuc}
use rustbox.Core.Error.{RustboxError}
use rustbox.Core.Protocol.{AgentRequest, AgentResponse}
use rustbox.Wire.Stream.{Reader}
use rustbox.Wire.Frame.{recv_response}
use rustbox.Network.Proxy.Request.{decimal}
use rustbox.Vm.AgentClient.{AgentTransport, Sockets, connect, send, ask}

abbrev ca_cert_guest_path : Text
ca_cert_guest_path = codes "/usr/local/share/ca-certificates/rustbox-proxy.crt"

abbrev proxy_env_path : Text
proxy_env_path = codes "/etc/profile.d/rustbox-proxy.sh"

-- The display of an `i32`
abbrev signed : ℤ → Text
signed (pos n) = decimal n
signed (negsuc n) = codes "-" ++ decimal (suc n)

abbrev exit_result : Text → ℤ → Result RustboxError (Unit {0})
exit_result cmd (pos zero) = ok tt
exit_result cmd code =
    err (RustboxError.agent_comm (cmd ++ codes " exited with code " ++ signed code))

module _ {H : Type 0} (sockets : Sockets H) (agent : AgentTransport) where
  -- Any response that is not an error is accepted.
  write_result : AgentResponse → Result RustboxError (Unit {0})
  write_result (AgentResponse.error message) = err (RustboxError.agent_comm message)
  write_result _ = ok tt

  unfoldable pub write_file_via_agent : Text → List ℕ → Exec H RustboxError (Unit {0})
  unfolding write_result
  write_file_via_agent path content h =
      let (response, h') = ask sockets agent (AgentRequest.write_file path content) h in
      elim response [ err e ↦ (err e, h') | ok resp ↦ (write_result resp, h') ]

  -- The loop over the responses. A read that fails counts as success. Each round reads from the
  -- stream, so its length bounds the rounds; `none` is the end of the fuel.
  unfoldable pub drain : ℕ → Text → Reader → Option (Result RustboxError (Unit {0}))
  drain zero cmd r = none
  drain (suc fuel) cmd r =
      let (received, r') = recv_response sockets.responses sockets.eof decimal r in
      let later = drain fuel cmd r' in
      elim received [
        | err e ↦ some (ok tt)
        | ok (AgentResponse.exec_done id code) ↦ some (exit_result cmd code)
        | ok (AgentResponse.error message) ↦ some (err (RustboxError.agent_comm message))
        | ok (AgentResponse.output id stream bytes) ↦ later
        | ok (AgentResponse.exec_started id) ↦ later
        | ok (AgentResponse.file_content bytes) ↦ later
        | ok AgentResponse.ok ↦ later
        | ok (AgentResponse.metrics_result m) ↦ later
        | ok AgentResponse.pong ↦ later
      ]

  unfoldable pub exec_and_wait : Text → List Text → H → Option (Result RustboxError (Unit {0})) × H
  unfolding drain
  exec_and_wait cmd args h =
      let (opened, h') = connect sockets agent h in
      elim opened [
        | err e ↦ (some (err e), h')
        | ok w ↦
            let request = AgentRequest.exec (record {
              cmd = cmd;
              args = args;
              cwd = none;
              env = none;
              sudo = false;
              detached = false;
            }) in
            let (sent, h'') = send sockets agent request w h' in
            elim sent [
              | err e ↦ (some (err e), h'')
              | ok r ↦ (drain (suc (length r.bytes)) cmd r, h'')
            ]
      ]

  -- Errors are only logged.
  unfoldable pub install_ca_cert : Text → H → H
  unfolding write_file_via_agent exec_and_wait
  install_ca_cert cert_pem h =
      let (written, h') = write_file_via_agent ca_cert_guest_path cert_pem h in
      elim written [ err e ↦ h' | ok _ ↦ (exec_and_wait (codes "update-ca-certificates") [] h').1 ]

  pub write_proxy_env : Text → ℕ → H → H
  write_proxy_env proxy_host proxy_port h =
      let url = codes "http://" ++ proxy_host ++ codes ":" ++ decimal proxy_port ++ codes "\n" in
      (write_file_via_agent proxy_env_path
        (codes "export HTTP_PROXY="
          ++ url
          ++ codes "export HTTPS_PROXY="
          ++ url
          ++ codes "export http_proxy="
          ++ url
          ++ codes "export https_proxy="
          ++ url
          ++ codes "export NO_PROXY=localhost,127.0.0.1\n"
          ++ codes "export no_proxy=localhost,127.0.0.1\n")
        h).1

  pub remove_proxy_env : H → H
  remove_proxy_env h = (write_file_via_agent proxy_env_path [] h).1
