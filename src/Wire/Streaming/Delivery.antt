-- ===== src/Wire/Streaming/Delivery.antt =====
-- What `exec_streaming` of crates/rustbox-vm/src/agent_client.rs delivers.
use rustbox.Prelude.{
  ℕ, zero, suc, ◌<◌, Text, List, [], ◌∷◌, ◌++◌, Option, none, some, ok, length, ◌≡◌, ap, subst, ◌∙◌,
  arith, All, append_assoc,
}
use rustbox.Prelude.Int.{ℤ}
use rustbox.Core.Command.{CommandOutput}
use rustbox.Core.Protocol.{AgentRequest, AgentResponse, OutputStream}
use rustbox.Wire.Stream.{Reader}
use rustbox.Wire.Frame.{Codec, IsWireCompatible, recv_response}
use rustbox.Wire.Frame.RoundTrip.{frame, recv_response-frame}
use rustbox.Wire.Frame.Sequence.{Fits, frames}
use rustbox.Wire.Streaming.{output_of, take_response, stream_outputs}
use rustbox.Wire.Streaming.Progress.{recv_response-shorter}

module _ (id : Text) (code : ℤ) where
  -- What the agent sends on a command that prints these chunks and then exits.
  abbrev pub conversation : List (OutputStream × List ℕ) → List AgentResponse
  conversation [] = AgentResponse.exec_done id code ∷ []
  conversation ((stream, bytes) ∷ chunks) =
      AgentResponse.output id stream bytes ∷ conversation chunks

  abbrev pub outputs : List (OutputStream × List ℕ) → List CommandOutput
  outputs [] = CommandOutput.exit code ∷ []
  outputs ((stream, bytes) ∷ chunks) = output_of stream bytes ∷ outputs chunks

  module _ (requests : Codec AgentRequest) (sender responses : Codec AgentResponse) (eof : Text)
      (decimal : ℕ → Text) (compatible : IsWireCompatible sender responses) (rest : List ℕ)
      (fault : Option Text) where
    pub receive_one :
        (msg : AgentResponse) (h : Fits sender msg) (tail : List ℕ)
        → recv_response responses eof decimal (record { bytes = frame h.0 ++ tail; fault = fault })
          ≡ (ok msg, record { bytes = tail; fault = fault })
    receive_one msg h tail =
        recv_response-frame responses msg h.0 tail fault (compatible msg h.0 h.1) h.2 eof decimal

    pub receive_one-shorter :
        (msg : AgentResponse) (h : Fits sender msg) (tail : List ℕ)
        → length tail < length (frame h.0 ++ tail)
    receive_one-shorter msg h tail =
        let r : Reader = record { bytes = frame h.0 ++ tail; fault = fault } in
        subst (λ p. length p.1.bytes < length (frame h.0 ++ tail)) (receive_one msg h tail)
          (recv_response-shorter responses eof decimal r msg
            (ap (λ p. p.0) (receive_one msg h tail)))

    -- With fuel beyond the length of the stream, the loop delivers the output that the agent sends,
    -- in order, then the exit code, and stops behind the last message, while the receiver is there.
    pub stream_outputs-delivers :
        (fuel : ℕ) (chunks : List (OutputStream × List ℕ))
        (fits : All (Fits sender) (conversation chunks)) (delivered : List CommandOutput)
        → length (frames sender (conversation chunks) fits ++ rest) < fuel
        → stream_outputs requests responses eof decimal fuel
            (record { bytes = frames sender (conversation chunks) fits ++ rest; fault = fault })
            (record { delivered = delivered; room = none })
          ≡ (
            some (ok tt),
            record { bytes = rest; fault = fault },
            record { delivered = delivered ++ outputs chunks; room = none },
          )
    unfolding stream_outputs take_response
    stream_outputs-delivers zero chunks fits delivered h = absurd (omega arith)
    stream_outputs-delivers (suc fuel) [] fits delivered h =
        let received = receive_one (AgentResponse.exec_done id code) fits.0 rest in
        rw (append_assoc (frame fits.0.0) [] rest) (
          rw (received, stream_outputs)
            (ap
              (λ p. (
                some (ok tt),
                p.1,
                record { delivered = delivered ++ CommandOutput.exit code ∷ []; room = none },
              ))
              received))
    stream_outputs-delivers (suc fuel) ((stream, bytes) ∷ chunks) fits delivered h =
        let msg = AgentResponse.output id stream bytes in
        let tail : List ℕ = frames sender (conversation chunks) fits.1 ++ rest in
        let split : frames sender (conversation ((stream, bytes) ∷ chunks)) fits ++ rest
            ≡ frame fits.0.0 ++ tail =
          append_assoc (frame fits.0.0) (frames sender (conversation chunks) fits.1) rest in
        let received =
          ap (λ b. recv_response responses eof decimal (record { bytes = b; fault = fault })) split
          ∙ receive_one msg fits.0 tail in
        let shorter = receive_one-shorter msg fits.0 tail in
        let left : length tail < fuel = omega (arith, h, ap length split, shorter) in
        let later =
          stream_outputs-delivers fuel chunks fits.1 (delivered ++ output_of stream bytes ∷ [])
            left in
        let grouped = append_assoc delivered (output_of stream bytes ∷ []) (outputs chunks) in
        rw (received, stream_outputs)
          (ap
              (λ p.
                stream_outputs requests responses eof decimal fuel p.1
                  (record { delivered = delivered ++ output_of stream bytes ∷ []; room = none }))
              received
            ∙ later
            ∙ ap
                (λ d. (
                  some (ok tt),
                  record { bytes = rest; fault = fault },
                  record { delivered = d; room = none },
                ))
                grouped)
