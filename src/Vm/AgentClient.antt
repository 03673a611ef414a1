-- ===== src/Vm/AgentClient.antt =====
-- `AgentClient` of crates/rustbox-vm/src/agent_client.rs: connections to the guest agent, and one
-- request on them. The sockets are those of the host: `answer` is what arrives on a new connection
-- once these bytes have been written to it, behind what was read from it before, up to the end of
-- the connection or an error. The code sets no timeout on a connection, a write or a read, so that a
-- call on a peer that neither answers nor closes waits for good: such a host is not represented, and
-- the functions here are the calls that return.
pub mod Served
use rustbox.Prelude.{
  ℕ, Text, codes, List, [], ◌++◌, none, Result, ok, err, Exec, starts_with, if◌then◌else◌,
}
use rustbox.Prelude.Whitespace.{trim}
use rustbox.Core.Command.{CommandOutput}
use rustbox.Core.Error.{RustboxError}
use rustbox.Core.Protocol.{AgentRequest, AgentResponse}
use rustbox.Wire.Stream.{Reader, Writer, write_all, flush}
use rustbox.Wire.Frame.{Codec, send_request, recv_response}
use rustbox.Wire.Streaming
use rustbox.Network.Proxy.Request.{decimal}

pub data AgentTransport : Type 0 where
  tcp vsock : Text → ℕ → AgentTransport

pub record Sockets (H : Type 0) : Type 0 where
  pub connect : AgentTransport → H → Result Text Writer × H
  pub answer : AgentTransport → List ℕ → H → Reader × H
  -- `read_line`, and the text of an error
  pub read_line : Reader → Result Text Text × Reader
  pub eof : Text
  pub requests : Codec AgentRequest
  pub responses : Codec AgentResponse

-- The line that opens a connection of the vsock multiplexer.
abbrev pub connect_line : ℕ → Text
connect_line guest_port = codes "CONNECT " ++ decimal guest_port ++ codes "\n"

abbrev comm : Text → Text → RustboxError
comm what e = RustboxError.agent_comm (what ++ e)

module _ {H : Type 0} (sockets : Sockets H) where
  -- The handshake of the vsock multiplexer on a connection.
  unfoldable pub shake_hands : AgentTransport → ℕ → Writer → Exec H RustboxError Writer
  shake_hands transport guest_port w h =
      let (written, w') = write_all (connect_line guest_port) w in
      elim written [
        | err e ↦ (err (comm (codes "vsock handshake write: ") e), h)
        | ok _ ↦ elim (flush w').0 [
          | err e ↦ (err (comm (codes "vsock handshake flush: ") e), h)
          | ok _ ↦
              let (r, h') = sockets.answer transport w'.written h in
              elim (sockets.read_line r).0 [
                | err e ↦ (err (comm (codes "vsock handshake read: ") e), h')
                | ok line ↦ (
                  if starts_with (codes "OK") line
                      then ok w'
                      else err (
                          RustboxError.agent_comm (
                            codes "vsock handshake failed: expected 'OK ...', got '"
                            ++ trim line
                            ++ codes "'")),
                  h',
                )
              ]
        ]
      ]

  abbrev address : Text → ℕ → Text
  address host port = host ++ codes ":" ++ decimal port

  unfoldable pub connect : AgentTransport → Exec H RustboxError Writer
  unfolding shake_hands
  connect (AgentTransport.tcp host port) h =
      let (opened, h') = sockets.connect (AgentTransport.tcp host port) h in
      elim opened [
        | err e ↦
            (err (comm (codes "connect to agent at " ++ address host port ++ codes ": ") e), h')
        | ok w ↦ (ok w, h')
      ]
  connect (AgentTransport.vsock uds_path guest_port) h =
      let (opened, h') = sockets.connect (AgentTransport.vsock uds_path guest_port) h in
      elim opened [
        | err e ↦ (err (comm (codes "connect to vsock at " ++ uds_path ++ codes ": ") e), h')
        | ok w ↦ shake_hands (AgentTransport.vsock uds_path guest_port) guest_port w h'
      ]

  -- `send_request` on the connection, and what then arrives on it.
  unfoldable pub send : AgentTransport → AgentRequest → Writer → Exec H RustboxError Reader
  send transport request w h =
      let (sent, w') = send_request sockets.requests request w in
      elim sent [
        | err e ↦ (err e, h)
        | ok _ ↦ let (r, h') = sockets.answer transport w'.written h in (ok r, h')
      ]

  -- A new connection, a request on it and the first response, where the peer answers or closes.
  unfoldable pub ask : AgentTransport → AgentRequest → Exec H RustboxError AgentResponse
  unfolding connect send
  ask transport request h =
      let (opened, h') = connect transport h in
      elim opened [
        | err e ↦ (err e, h')
        | ok w ↦
            let (sent, h'') = send transport request w h' in
            elim sent [
              | err e ↦ (err e, h'')
              | ok r ↦ ((recv_response sockets.responses sockets.eof decimal r).0, h'')
            ]
      ]

  -- What arrives on the channel of `exec_streaming` while its receiver is there; an error is only
  -- logged.
  unfoldable pub exec_streaming : AgentTransport → AgentRequest → H → List CommandOutput × H
  unfolding connect
  exec_streaming transport request h =
      let (opened, h') = connect transport h in
      elim opened [
        | err e ↦ ([], h')
        | ok w ↦
            let (_, w') = send_request sockets.requests request w in
            let (r, h'') = sockets.answer transport w'.written h' in
            let (_, _, _, sink) =
              Streaming.exec_streaming sockets.requests sockets.responses sockets.eof decimal
                request w r (record { delivered = []; room = none }) in
            (sink.delivered, h'')
      ]
