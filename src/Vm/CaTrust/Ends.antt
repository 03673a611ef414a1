-- ===== src/Vm/CaTrust/Ends.antt =====
-- The fuel of `exec_and_wait`, crates/rustbox-vm/src/ca_trust.rs, on a connection that ends.
use rustbox.Prelude.{
  ℕ, zero, suc, ◌<◌, Text, List, none, some, false, Result, ok, length, ◌≡◌, refl, arith,
  Result-cases, inl, inr,
}
use rustbox.Core.Error.{RustboxError}
use rustbox.Core.Protocol.{AgentRequest, AgentResponse}
use rustbox.Wire.Stream.{Reader}
use rustbox.Wire.Frame.{recv_response}
use rustbox.Wire.Streaming.Progress.{recv_response-shorter}
use rustbox.Network.Proxy.Request.{decimal}
use rustbox.Vm.AgentClient.{AgentTransport, Sockets, connect, send}
use rustbox.Vm.CaTrust.{drain, exec_and_wait}

module _ {H : Type 0} (sockets : Sockets H) (agent : AgentTransport) where
  drain-ends :
      (fuel : ℕ) (cmd : Text) (r : Reader)
      → length r.bytes < fuel
      → (result : Result RustboxError (Unit {0})) × (drain sockets agent fuel cmd r ≡ some result)
  unfolding drain
  drain-ends zero cmd r h = absurd (omega arith)
  drain-ends (suc fuel) cmd r h =
      let received = recv_response sockets.responses sockets.eof decimal r in
      elim (Result-cases received.0) [
        | inr (e, failed) ↦ (ok tt, rw (failed, drain) refl)
        | inl (resp, good) ↦
            let later = drain-ends fuel cmd received.1 (
              omega (
                arith,
                h,
                recv_response-shorter sockets.responses sockets.eof decimal r resp good,
              )) in
            by_response resp good later
      ]
    where
      by_response :
          (resp : AgentResponse)
          → (recv_response sockets.responses sockets.eof decimal r).0 ≡ ok resp
          → (result : Result RustboxError (Unit {0})) × (drain sockets agent fuel cmd
                (recv_response sockets.responses sockets.eof decimal r).1
              ≡ some result)
          → (result : Result RustboxError (Unit {0})) × (drain sockets agent (suc fuel) cmd r
              ≡ some result)
      by_response (AgentResponse.exec_done id code) good later = rw (good, drain) (_, refl)
      by_response (AgentResponse.error message) good later = rw (good, drain) (_, refl)
      by_response _ good later = rw (good, drain) later

  -- Whatever the agent sends before the end, the loop has fuel enough: the length of the stream bounds
  -- its rounds.
  pub exec_and_wait-ends :
      (cmd : Text) (args : List Text) (h : H)
      → (result : Result RustboxError (Unit {0})) × ((exec_and_wait sockets agent cmd args h).0
          ≡ some result)
  unfolding exec_and_wait
  exec_and_wait-ends cmd args h =
      let request = AgentRequest.exec (record {
        cmd = cmd;
        args = args;
        cwd = none;
        env = none;
        sudo = false;
        detached = false;
      }) in
      elim (Result-cases (connect sockets agent h).0) [
        | inr (e, failed) ↦ rw (failed, exec_and_wait) (_, refl)
        | inl (w, opened) ↦
            elim (Result-cases (send sockets agent request w (connect sockets agent h).1).0) [
              | inr (e, failed) ↦ rw (opened, failed, exec_and_wait) (_, refl)
              | inl (r, sent) ↦
                  rw (opened, sent, exec_and_wait)
                    (drain-ends (suc (length r.bytes)) cmd r (omega arith))
            ]
      ]
