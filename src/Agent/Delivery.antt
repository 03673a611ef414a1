-- ===== src/Agent/Delivery.antt =====
-- From the process to the daemon's channel: the agent's handler, and `exec_streaming` on what it
-- sends.
use rustbox.Prelude.{
  ℕ, zero, suc, ◌<◌, Text, List, [], ◌∷◌, ◌++◌, true, false, Option, none, some, ok, length, ◌≡◌,
  refl, sym, ap, subst, ◌∙◌, arith, All, append_assoc,
}
use rustbox.Prelude.Dict.{get, insert, get-insert_self}
use rustbox.Prelude.Int.{ℤ}
use rustbox.Core.Command.{CommandRequest, CommandOutput}
use rustbox.Core.Protocol.{AgentRequest, AgentResponse, OutputStream}
use rustbox.Wire.Frame.{Codec, IsWireCompatible, recv_response}
use rustbox.Wire.Frame.RoundTrip.{frame}
use rustbox.Wire.Frame.Sequence.{Fits, frames}
use rustbox.Wire.Streaming.{stream_outputs, take_response}
use rustbox.Wire.Streaming.Delivery.{
  conversation, outputs, receive_one, receive_one-shorter, stream_outputs-delivers,
}
use rustbox.Agent.Guest.{Child, Guest, Read}
use rustbox.Agent.Executor.{
  CommandExecutor, Task, command_of, exit_code_of, track, spawn_command, run_task, collect_exit,
}
use rustbox.Agent.Executor.Outputs.{until_end, bytes_of, chunks, stream_output-chunks}
use rustbox.Agent.Handler.{handle_request}

module _ {G : Type 0} (guest : Guest G) where
  -- What one process prints, and the code that it ends with.
  abbrev pub reads_of : Child → G → List Read
  reads_of child g = (guest.reads child g).0

  abbrev pub code_of : Child → G → ℤ
  code_of child g = exit_code_of (guest.wait child (guest.reads child g).1).0

  spawn_command-attached :
      (req : CommandRequest) (ex : CommandExecutor G) (child : Child) (g : G)
      → req.detached ≡ false
      → guest.spawn (command_of req) (guest.now_v7 ex.guest).1 ≡ (ok child, g)
      → let cid = (guest.now_v7 ex.guest).0 in
        spawn_command guest req ex ≡ (
          ok (cid, Task.follow cid child),
          record { children = insert cid child ex.children; guest = g },
        )
  unfolding spawn_command track
  spawn_command-attached req ex child g attached spawned =
      rw (spawn_command, spawned)
        (ap
            (λ p.
              (let (started, ex') =
                  track guest (guest.now_v7 ex.guest).0 req.detached child
                    (record ex { guest = p.1 }) in
                (ok started, ex')))
            spawned
          ∙ rw attached refl)

  run_task-follow :
      (cid : Text) (child : Child) (ex : CommandExecutor G)
      → get cid ex.children ≡ some child
      → (run_task guest (Task.follow cid child) ex).0
        ≡ AgentResponse.exec_started cid
          ∷ conversation cid (code_of child ex.guest) (chunks (reads_of child ex.guest) true true)
  unfolding run_task collect_exit
  run_task-follow cid child ex tracked =
      rw (run_task, collect_exit, tracked)
        (ap (λ rs. AgentResponse.exec_started cid ∷ rs)
          (stream_output-chunks cid (code_of child ex.guest) (reads_of child ex.guest) true true).0)

  -- The responses to a command whose output is captured.
  pub handle_request-exec :
      (req : CommandRequest) (ex : CommandExecutor G) (child : Child) (g : G)
      → req.detached ≡ false
      → guest.spawn (command_of req) (guest.now_v7 ex.guest).1 ≡ (ok child, g)
      → let cid = (guest.now_v7 ex.guest).0 in
        (handle_request guest (AgentRequest.exec req) ex).0
        ≡ AgentResponse.exec_started cid
          ∷ conversation cid (code_of child g) (chunks (reads_of child g) true true)
  unfolding handle_request
  handle_request-exec req ex child g attached spawned =
      let cid = (guest.now_v7 ex.guest).0 in
      rw (spawn_command-attached req ex child g attached spawned) (
        run_task-follow cid child (record { children = insert cid child ex.children; guest = g })
          (get-insert_self cid child ex.children))

-- The last message.
abbrev pub last_from : CommandOutput → List CommandOutput → CommandOutput
last_from out [] = out
last_from out (next ∷ outs) = last_from next outs

last_from-outputs :
    (cid : Text) (code : ℤ) (pieces : List (OutputStream × List ℕ)) (out : CommandOutput)
    → last_from out (outputs cid code pieces) ≡ CommandOutput.exit code
last_from-outputs cid code [] out = refl
last_from-outputs cid code (piece ∷ pieces) out = last_from-outputs cid code pieces _

module _ (requests : Codec AgentRequest) (sender responses : Codec AgentResponse) (eof : Text)
    (decimal : ℕ → Text) (rest : List ℕ) (fault : Option Text) (fuel : ℕ) where
  -- What the daemon's loop makes of responses that are on the stream.
  abbrev pub IsDelivered :
      (msgs : List AgentResponse) → All (Fits sender) msgs → List CommandOutput → Type 0
  IsDelivered msgs fits outs =
      stream_outputs requests responses eof decimal fuel
        (record { bytes = frames sender msgs fits ++ rest; fault = fault })
        (record { delivered = []; room = none })
      ≡ (
        some (ok tt),
        record { bytes = rest; fault = fault },
        record { delivered = outs; room = none },
      )

module _ (requests : Codec AgentRequest) (sender responses : Codec AgentResponse) (eof : Text)
    (decimal : ℕ → Text) (compatible : IsWireCompatible sender responses) (rest : List ℕ)
    (fault : Option Text) where
  -- The announcement that the process was started is passed over.
  started-IsDelivered :
      (fuel : ℕ) (cid : Text) (code : ℤ) (pieces : List (OutputStream × List ℕ))
      (fits : All (Fits sender) (AgentResponse.exec_started cid ∷ conversation cid code pieces))
      → length (
          frames sender (AgentResponse.exec_started cid ∷ conversation cid code pieces) fits
          ++ rest)
        < fuel
      → IsDelivered requests sender responses eof decimal rest fault fuel
          (AgentResponse.exec_started cid ∷ conversation cid code pieces)
          fits
          (outputs cid code pieces)
  unfolding stream_outputs take_response
  started-IsDelivered zero cid code pieces fits h = absurd (omega arith)
  started-IsDelivered (suc fuel) cid code pieces fits h =
      let msg = AgentResponse.exec_started cid in
      let tail : List ℕ = frames sender (conversation cid code pieces) fits.1 ++ rest in
      let split : frames sender (msg ∷ conversation cid code pieces) fits ++ rest
          ≡ frame fits.0.0 ++ tail =
        append_assoc (frame fits.0.0) (frames sender (conversation cid code pieces) fits.1) rest in
      let received =
        ap (λ b. recv_response responses eof decimal (record { bytes = b; fault = fault })) split
        ∙ receive_one cid code requests sender responses eof decimal compatible rest fault msg
            fits.0 tail in
      let shorter =
        receive_one-shorter cid code requests sender responses eof decimal compatible rest fault msg
          fits.0 tail in
      let left : length tail < fuel = omega (arith, h, ap length split, shorter) in
      rw (received, stream_outputs)
        (ap
            (λ p.
              stream_outputs requests responses eof decimal fuel p.1
                (record { delivered = []; room = none }))
            received
          ∙ stream_outputs-delivers cid code requests sender responses eof decimal compatible rest
              fault fuel pieces fits.1 [] left)

  module _ {G : Type 0} (guest : Guest G) (req : CommandRequest) (ex : CommandExecutor G)
      (child : Child) (g : G) (attached : req.detached ≡ false)
      (spawned : guest.spawn (command_of req) (guest.now_v7 ex.guest).1 ≡ (ok child, g)) where
    -- With fuel beyond the length of the stream: what the agent sends on a command that it starts with captured output, the daemon's loop turns
    -- into messages that end with the exit code and hold, for each of the two outputs, the bytes
    -- that were read from it before its end or an error, in order, however the reads took turns.
    pub exec-IsDelivered :
        (fuel : ℕ) (fits : All (Fits sender) (handle_request guest (AgentRequest.exec req) ex).0)
        → length (frames sender (handle_request guest (AgentRequest.exec req) ex).0 fits ++ rest)
          < fuel
        → (outs : List CommandOutput) × IsDelivered requests sender responses eof decimal rest fault
            fuel
            (handle_request guest (AgentRequest.exec req) ex).0
            fits
            outs
          × (last_from (CommandOutput.stdout []) outs ≡ CommandOutput.exit (code_of guest child g))
          × (bytes_of OutputStream.stdout outs
              ≡ until_end OutputStream.stdout (reads_of guest child g))
          × (bytes_of OutputStream.stderr outs
              ≡ until_end OutputStream.stderr (reads_of guest child g))
    exec-IsDelivered fuel fits h =
        let cid = (guest.now_v7 ex.guest).0 in
        let code = code_of guest child g in
        let pieces = chunks (reads_of guest child g) true true in
        let (_, out, errors) = stream_output-chunks cid code (reads_of guest child g) true true in
        (
          outputs cid code pieces,
          subst
              (λ msgs.
                (fits : All (Fits sender) msgs)
                → length (frames sender msgs fits ++ rest) < fuel
                → IsDelivered requests sender responses eof decimal rest fault fuel msgs fits
                    (outputs cid code pieces))
              (sym (handle_request-exec guest req ex child g attached spawned))
              (started-IsDelivered fuel cid code pieces) fits h,
          last_from-outputs cid code pieces _,
          out,
          errors,
        )
