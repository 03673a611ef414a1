-- ===== src/Agent/Executor/Outputs.antt =====
-- What `spawn_command` of crates/rustbox-agent/src/executor.rs makes of the output of a process.
use rustbox.Prelude.{
  ℕ, Text, List, [], ◌∷◌, ◌++◌, Bool, true, false, ok, err, if◌then◌else◌, ◌≡◌, refl, ap, arith,
}
use rustbox.Prelude.Int.{ℤ}
use rustbox.Core.Command.{CommandOutput}
use rustbox.Core.Protocol.{AgentResponse, OutputStream}
use rustbox.Wire.Streaming.Delivery.{conversation, outputs}
use rustbox.Agent.Guest.{Read}
use rustbox.Agent.Executor.{stream_output}

abbrev pub same : OutputStream → OutputStream → Bool
same OutputStream.stdout OutputStream.stdout = true
same OutputStream.stderr OutputStream.stderr = true
same _ _ = false

-- The bytes that the reads of one output return before its end and before any error.
abbrev pub until_end : OutputStream → List Read → List ℕ
until_end st [] = []
until_end st ((st', result) ∷ reads) =
    if same st st'
    then elim result [
      | ok [] ↦ []
      | ok (b ∷ bytes) ↦ (b ∷ bytes) ++ until_end st reads
      | err e ↦ []
    ]
    else until_end st reads

-- The bytes of one output among what the receiver gets.
abbrev pub bytes_of : OutputStream → List CommandOutput → List ℕ
bytes_of st [] = []
bytes_of OutputStream.stdout (CommandOutput.stdout bytes ∷ outs) =
    bytes ++ bytes_of OutputStream.stdout outs
bytes_of OutputStream.stderr (CommandOutput.stderr bytes ∷ outs) =
    bytes ++ bytes_of OutputStream.stderr outs
bytes_of st (_ ∷ outs) = bytes_of st outs

-- The pieces that go out, while both, one or none of the outputs are read.
unfoldable pub chunks : List Read → Bool → Bool → List (OutputStream × List ℕ)
chunks [] o e = []
chunks ((OutputStream.stdout, result) ∷ reads) false e = chunks reads false e
chunks ((OutputStream.stdout, ok []) ∷ reads) true e = chunks reads false e
chunks ((OutputStream.stdout, ok (b ∷ bytes)) ∷ reads) true e =
    (OutputStream.stdout, b ∷ bytes) ∷ chunks reads true e
chunks ((OutputStream.stdout, err m) ∷ reads) true e = chunks reads false e
chunks ((OutputStream.stderr, result) ∷ reads) o false = chunks reads o false
chunks ((OutputStream.stderr, ok []) ∷ reads) o true = chunks reads o false
chunks ((OutputStream.stderr, ok (b ∷ bytes)) ∷ reads) o true =
    (OutputStream.stderr, b ∷ bytes) ∷ chunks reads o true
chunks ((OutputStream.stderr, err m) ∷ reads) o true = chunks reads o false

abbrev if_open : Bool → List ℕ → List ℕ
if_open true bytes = bytes
if_open false bytes = []

-- The task's responses are a conversation as the daemon expects it, in which each output arrives as
-- it was read, however the reads of the two take turns.
module _ (cid : Text) (code : ℤ) where
  pub stream_output-chunks :
      (reads : List Read) (o e : Bool)
      → (stream_output cid reads (record { stdout_open = o; stderr_open = e })
            ++ AgentResponse.exec_done cid code ∷ []
          ≡ conversation cid code (chunks reads o e))
        × (bytes_of OutputStream.stdout (outputs cid code (chunks reads o e))
            ≡ if_open o (until_end OutputStream.stdout reads))
        × (bytes_of OutputStream.stderr (outputs cid code (chunks reads o e))
            ≡ if_open e (until_end OutputStream.stderr reads))
  unfolding stream_output chunks
  stream_output-chunks [] o e = (refl, ground arith, ground arith)
  stream_output-chunks ((OutputStream.stdout, result) ∷ reads) false e =
      stream_output-chunks reads false e
  stream_output-chunks ((OutputStream.stdout, ok []) ∷ reads) true e =
      stream_output-chunks reads false e
  stream_output-chunks ((OutputStream.stdout, ok (b ∷ bytes)) ∷ reads) true e =
      let (sent, out, errors) = stream_output-chunks reads true e in
      (
        ap (λ rest. AgentResponse.output cid OutputStream.stdout (b ∷ bytes) ∷ rest) sent,
        ap (λ rest. (b ∷ bytes) ++ rest) out,
        errors,
      )
  stream_output-chunks ((OutputStream.stdout, err m) ∷ reads) true e =
      stream_output-chunks reads false e
  stream_output-chunks ((OutputStream.stderr, result) ∷ reads) o false =
      stream_output-chunks reads o false
  stream_output-chunks ((OutputStream.stderr, ok []) ∷ reads) o true =
      stream_output-chunks reads o false
  stream_output-chunks ((OutputStream.stderr, ok (b ∷ bytes)) ∷ reads) o true =
      let (sent, out, errors) = stream_output-chunks reads o true in
      (
        ap (λ rest. AgentResponse.output cid OutputStream.stderr (b ∷ bytes) ∷ rest) sent,
        out,
        ap (λ rest. (b ∷ bytes) ++ rest) errors,
      )
  stream_output-chunks ((OutputStream.stderr, err m) ∷ reads) o true =
      stream_output-chunks reads o false
