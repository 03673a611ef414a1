-- ===== src/Wire/Streaming.antt =====
-- `AgentClient::exec_streaming` of crates/rustbox-vm/src/agent_client.rs, once connected. The sender
-- of the channel takes messages until its receiver is dropped, after `room` of them if it is.
pub mod Progress
pub mod Delivery
use rustbox.Prelude.{
  ℕ, zero, suc, Text, codes, List, [], ◌∷◌, ◌++◌, Bool, true, false, Option, none, some, Result, ok,
  err, length,
}
use rustbox.Core.Command.{CommandOutput}
use rustbox.Core.Error.{RustboxError}
use rustbox.Core.Protocol.{AgentRequest, AgentResponse, OutputStream}
use rustbox.Wire.Stream.{Reader, Writer}
use rustbox.Wire.Frame.{Codec, send_request, recv_response}

pub record Sink : Type 0 where
  pub delivered : List CommandOutput
  pub room : Option ℕ

-- `tx.send(output)`: whether it was accepted
send : CommandOutput → Sink → Bool × Sink
send output s = elim s.room [
  | none ↦ (true, record s { delivered = s.delivered ++ output ∷ [] })
  | some zero ↦ (false, s)
  | some (suc n) ↦ (true, record s { delivered = s.delivered ++ output ∷ []; room = some n })
]

pub data Step : Type 0 where
  go_on stop : Step

abbrev pub output_of : OutputStream → List ℕ → CommandOutput
output_of OutputStream.stdout bytes = CommandOutput.stdout bytes
output_of OutputStream.stderr bytes = CommandOutput.stderr bytes

abbrev step_of : Bool → Step
step_of true = Step.go_on
step_of false = Step.stop

-- One round of the loop, after the response was read.
unfoldable pub take_response : AgentResponse → Sink → Result RustboxError Step × Sink
unfolding send
take_response (AgentResponse.exec_started command_id) s = (ok Step.go_on, s)
take_response (AgentResponse.output command_id stream bytes) s =
    let (accepted, s') = send (output_of stream bytes) s in (ok (step_of accepted), s')
take_response (AgentResponse.exec_done command_id code) s =
    let (_, s') = send (CommandOutput.exit code) s in (ok Step.stop, s')
take_response (AgentResponse.error message) s = (err (RustboxError.agent_comm message), s)
take_response _ s = (err (RustboxError.agent_comm (codes "unexpected response during exec")), s)

module _ (requests : Codec AgentRequest) (responses : Codec AgentResponse) (eof : Text)
    (decimal : ℕ → Text) where
  -- The loop. Each round reads from the stream, so its length bounds the rounds; `none` is the end
  -- of the fuel.
  unfoldable pub stream_outputs :
      ℕ → Reader → Sink → Option (Result RustboxError (Unit {0})) × Reader × Sink
  stream_outputs zero r s = (none, r, s)
  stream_outputs (suc fuel) r s =
      let (received, r') = recv_response responses eof decimal r in
      elim received [
        | err e ↦ (some (err e), r', s)
        | ok resp ↦
            let (step, s') = take_response resp s in
            elim step [
              | err e ↦ (some (err e), r', s')
              | ok Step.stop ↦ (some (ok tt), r', s')
              | ok Step.go_on ↦ stream_outputs fuel r' s'
            ]
      ]

  unfoldable pub exec_streaming :
      AgentRequest
      → Writer
      → Reader
      → Sink
      → Option (Result RustboxError (Unit {0})) × Writer × Reader × Sink
  unfolding stream_outputs
  exec_streaming request w r s =
      let (sent, w') = send_request requests request w in
      elim sent [
        | err e ↦ (some (err e), w', r, s)
        | ok _ ↦
            let (result, r', s') = stream_outputs (suc (length r.bytes)) r s in (result, w', r', s')
      ]
