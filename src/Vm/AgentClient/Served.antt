-- ===== src/Vm/AgentClient/Served.antt =====
-- The daemon's client of crates/rustbox-vm/src/agent_client.rs on sockets behind which the agent of
-- crates/rustbox-agent/src handles the connections.
use rustbox.Prelude.{
  ℕ, suc, ◌≤◌, Text, codes, List, [], ◌∷◌, ◌++◌, true, none, Result, ok, err, length, starts_with,
  ◌≡◌, refl, sym, ap, ◌∙◌, arith, append-nil,
}
use rustbox.Core.Error.{RustboxError}
use rustbox.Core.Protocol.{AgentRequest, AgentResponse}
use rustbox.Wire.Stream.{Reader, Writer, write_all, flush, to_be_bytes}
use rustbox.Wire.Frame.{Codec, IsWireCompatible, max_message_size, recv_response}
use rustbox.Wire.Frame.RoundTrip.{sound, frame, send_request-sound, recv_response-frame}
use rustbox.Wire.Frame.Sequence.{Fits}
use rustbox.Network.Proxy.Request.{decimal}
use rustbox.Agent.Guest.{Guest}
use rustbox.Agent.Executor.{CommandExecutor}
use rustbox.Agent.Handler.{handle_request}
use rustbox.Agent.Connection.{Connection, handle_connection}
use rustbox.Agent.Connection.Serving.{Prints, framed, handle_all, handle_connection-handle_all}
use rustbox.Vm.AgentClient.{AgentTransport, Sockets, connect_line, shake_hands, connect, send, ask}

-- What the client writes before its request.
abbrev pub preface : AgentTransport → List ℕ
preface (AgentTransport.tcp host port) = []
preface (AgentTransport.vsock uds_path guest_port) = connect_line guest_port

module _ {G H : Type 0} (guest : Guest G) (requests : Codec AgentRequest)
    (responses : Codec AgentResponse) (view : H → CommandExecutor G) where
  -- The agent on a connection that closes behind these bytes.
  abbrev pub conversation_on : List ℕ → H → Connection G
  conversation_on bytes h =
      (handle_connection guest requests responses (suc (length bytes)) (record {
        reader = record { bytes = bytes; fault = none };
        writer = sound [];
        executor = view h;
      })).1

  -- Connections are opened and greeted, and the agent handles what is written behind the preface, on
  -- a connection of its own.
  pub record IsServed (sockets : Sockets H) (transport : AgentTransport) : Type 0 where
    pub opened : (h : H) → sockets.connect transport h ≡ (ok (sound []), h)
    pub greeted :
        (uds_path : Text) (guest_port : ℕ) (h : H)
        → transport ≡ AgentTransport.vsock uds_path guest_port
        → let reply = sockets.answer transport (connect_line guest_port) h in
          (line : Text) × ((sockets.read_line reply.0).0 ≡ ok line)
          × (starts_with (codes "OK") line ≡ true)
          × (view reply.1 ≡ view h)
    pub handled :
        (b : ℕ) (bytes : List ℕ) (h : H)
        → let reply = sockets.answer transport (preface transport ++ b ∷ bytes) h in
          let done = conversation_on (b ∷ bytes) h in
          (reply.0 ≡ record { bytes = done.writer.written; fault = none })
          × (view reply.1 ≡ done.executor)

  -- The vsock handshake gets through.
  shake_hands-greeted :
      (sockets : Sockets H) (transport : AgentTransport) (guest_port : ℕ) (line : Text) (h : H)
      → let reply = sockets.answer transport (connect_line guest_port) h in
        (sockets.read_line reply.0).0 ≡ ok line
        → starts_with (codes "OK") line ≡ true
        → shake_hands sockets transport guest_port (sound []) h
          ≡ (ok (sound (connect_line guest_port)), reply.1)
  unfolding shake_hands write_all flush
  shake_hands-greeted sockets transport guest_port line h read good =
      rw (shake_hands, read, good) refl

  -- A connection is open behind its preface.
  connect-preface :
      (sockets : Sockets H) (transport : AgentTransport) (served : IsServed sockets transport)
      (h : H)
      → (h' : H) × (connect sockets transport h ≡ (ok (sound (preface transport)), h'))
        × (view h' ≡ view h)
  unfolding connect
  connect-preface sockets (AgentTransport.tcp host port) served h =
      (h, rw (connect, served.opened h) (ap (λ p. (ok (sound []), p.1)) (served.opened h)), refl)
  connect-preface sockets (AgentTransport.vsock uds_path guest_port) served h =
      let transport = AgentTransport.vsock uds_path guest_port in
      let (line, read, good, same) = served.greeted uds_path guest_port h refl in
      (
        (sockets.answer transport (connect_line guest_port) h).1,
        rw (connect, served.opened h)
            (ap (λ p. shake_hands sockets transport guest_port (sound []) p.1) (served.opened h)
              ∙ shake_hands-greeted sockets transport guest_port line h read good),
        same,
      )

  -- One request, answered by the agent.
  module _ (sockets : Sockets H) (transport : AgentTransport) (served : IsServed sockets transport)
      (understood : IsWireCompatible sockets.requests requests) (print : AgentResponse → List ℕ)
      (prints : Prints responses print) (request : AgentRequest)
      (fits : Fits sockets.requests request) where
    -- What the agent has written and done when the request is handled.
    conversation-request :
        (h : H)
        → conversation_on (frame fits.0) h ≡ record {
          reader = record { bytes = []; fault = none };
          writer = sound (framed print (handle_all guest (request ∷ []) (view h)).0);
          executor = (handle_all guest (request ∷ []) (view h)).1;
        }
    conversation-request h =
        ap (λ bytes. conversation_on bytes h) (sym (append-nil (frame fits.0)))
        ∙ ap (λ p. p.1)
            (handle_connection-handle_all guest sockets.requests requests responses print prints
              understood (suc (length (frame fits.0 ++ []))) (request ∷ []) (fits, tt) [] (view h)
              (omega arith))

    send-handled :
        (h : H)
        → (h' : H) × (send sockets transport request (sound (preface transport)) h ≡ (
          ok (record {
            bytes = framed print (handle_all guest (request ∷ []) (view h)).0;
            fault = none;
          }),
          h',
        ))
          × (view h' ≡ (handle_all guest (request ∷ []) (view h)).1)
    unfolding send to_be_bytes
    send-handled h =
        let sent = send_request-sound sockets.requests request fits.0 fits.1 (preface transport) in
        let done = conversation-request h in
        let (replied, after) = served.handled _ _ h in
        let h' = (sockets.answer transport (preface transport ++ frame fits.0) h).1 in
        let answer_to : Result RustboxError (Unit {0}) × Writer → Result RustboxError Reader × H =
          λ q. (let (r, k) = sockets.answer transport q.1.written h in (ok r, k)) in
        (
          h',
          rw (send, sent)
              (ap answer_to sent
                ∙ ap (λ r. (ok r, h'))
                    (replied ∙ ap (λ c. record { bytes = c.writer.written; fault = none }) done)),
          after ∙ ap (λ c. c.executor) done,
        )

    -- Where sockets are served by the agent, which understands the requests of the client: on a
    -- request within 16 MiB the client gets the first response that the agent's handler sends, if
    -- it is within 16 MiB and the client understands it, and the agent is left as the handler leaves
    -- it.
    pub ask-handle_request :
        (h : H) (resp : AgentResponse) (later : List AgentResponse)
        → (handle_request guest request (view h)).0 ≡ resp ∷ later
        → length (print resp) ≤ max_message_size
        → sockets.responses.from_slice (print resp) ≡ ok resp
        → ((ask sockets transport request h).0 ≡ ok resp)
          × (view (ask sockets transport request h).1 ≡ (handle_request guest request (view h)).1)
    unfolding ask
    ask-handle_request h resp later responds small parsed =
        let (h', connected, same) = connect-preface sockets transport served h in
        let (h'', sent, after) = send-handled h' in
        let bytes = framed print (handle_all guest (request ∷ []) (view h')).0 in
        let receive : Result RustboxError Reader × H → Result RustboxError AgentResponse × H = λ p.
          elim p.0 [
            | err e ↦ (err e, p.1)
            | ok r ↦ ((recv_response sockets.responses sockets.eof decimal r).0, p.1)
          ] in
        let asked : ask sockets transport request h ≡ (
          (recv_response sockets.responses sockets.eof decimal
              (record { bytes = bytes; fault = none })).0,
          h'',
        ) =
          rw (ask, connected)
            (ap (λ p. receive (send sockets transport request (sound (preface transport)) p.1))
                connected
              ∙ ap receive sent) in
        let first : bytes ≡ frame (print resp) ++ framed print (later ++ []) =
          ap (λ ex. framed print ((handle_request guest request ex).0 ++ [])) same
          ∙ ap (λ msgs. framed print (msgs ++ [])) responds in
        let received =
          recv_response-frame sockets.responses resp (print resp) (framed print (later ++ [])) none
            parsed small sockets.eof decimal in
        (
          ap (λ p. p.0) asked
              ∙ ap
                  (λ b.
                    (recv_response sockets.responses sockets.eof decimal
                      (record { bytes = b; fault = none })).0)
                  first
              ∙ ap (λ p. p.0) received,
          ap (λ p. view p.1) asked ∙ after ∙ ap (λ ex. (handle_request guest request ex).1) same,
        )
