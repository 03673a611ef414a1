-- ===== src/Vm/Local/Commands/Outputs.antt =====
-- What the task of a command in crates/rustbox-vm/src/local_backend.rs sends.
use rustbox.Prelude.{
  Text, List, [], ◌∷◌, ◌++◌, Bool, true, false, some, ok, err, ◌≡◌, refl, ap, ◌∙◌,
}
use rustbox.Prelude.Dict
use rustbox.Prelude.Int.{ℤ}
use rustbox.Core.Sandbox.{SandboxId, CommandId}
use rustbox.Core.Command.{CommandOutput}
use rustbox.Core.Protocol.{OutputStream}
use rustbox.Wire.Streaming.Delivery.{outputs}
use rustbox.Agent.Guest.{Read}
use rustbox.Agent.Executor.{exit_code_of}
use rustbox.Agent.Executor.Outputs.{chunks, bytes_of, until_end, stream_output-chunks}
use rustbox.Vm.Local.State.{Os, LocalBackend}
use rustbox.Vm.Local.Commands.{key_of, stream_output, run_task}

-- The task sends what the daemon would make of the agent's messages on the same reads.
stream_output-outputs :
    (cid : Text) (code : ℤ) (reads : List Read) (o e : Bool)
    → stream_output reads (record { stdout_open = o; stderr_open = e })
        ++ CommandOutput.exit code ∷ []
      ≡ outputs cid code (chunks reads o e)
unfolding stream_output chunks
stream_output-outputs cid code [] o e = refl
stream_output-outputs cid code ((OutputStream.stdout, result) ∷ reads) false e =
    stream_output-outputs cid code reads false e
stream_output-outputs cid code ((OutputStream.stdout, ok []) ∷ reads) true e =
    stream_output-outputs cid code reads false e
stream_output-outputs cid code ((OutputStream.stdout, ok (b ∷ bytes)) ∷ reads) true e =
    ap (λ rest. CommandOutput.stdout (b ∷ bytes) ∷ rest)
      (stream_output-outputs cid code reads true e)
stream_output-outputs cid code ((OutputStream.stdout, err m) ∷ reads) true e =
    stream_output-outputs cid code reads false e
stream_output-outputs cid code ((OutputStream.stderr, result) ∷ reads) o false =
    stream_output-outputs cid code reads o false
stream_output-outputs cid code ((OutputStream.stderr, ok []) ∷ reads) o true =
    stream_output-outputs cid code reads o false
stream_output-outputs cid code ((OutputStream.stderr, ok (b ∷ bytes)) ∷ reads) o true =
    ap (λ rest. CommandOutput.stderr (b ∷ bytes) ∷ rest)
      (stream_output-outputs cid code reads o true)
stream_output-outputs cid code ((OutputStream.stderr, err m) ∷ reads) o true =
    stream_output-outputs cid code reads o false

module _ {IpNet C H : Type 0} (os : Os C H) where
  -- Behind `exec`, the receiver gets of each output of the process what its reads return up to its
  -- end or an error, however the reads of the two take turns, and last the exit code. The command,
  -- which `exec` has put into the backend's table, is still there then.
  pub run_task-delivers :
      (id : SandboxId) (cmd_id : CommandId) (child : C) (b : LocalBackend IpNet C H)
      → Dict.get (key_of id cmd_id) b.running_commands ≡ some child
      → (bytes_of OutputStream.stdout (run_task os child b).0
          ≡ until_end OutputStream.stdout (os.reads child b.host).0)
        × (bytes_of OutputStream.stderr (run_task os child b).0
            ≡ until_end OutputStream.stderr (os.reads child b.host).0)
        × ((sent : List CommandOutput) × ((run_task os child b).0
              ≡ sent
                ++ CommandOutput.exit (exit_code_of (os.wait child (os.reads child b.host).1).0)
                  ∷ []))
        × (Dict.get (key_of id cmd_id) (run_task os child b).1.running_commands ≡ some child)
  unfolding run_task
  run_task-delivers id cmd_id child b filed =
      let code = exit_code_of (os.wait child (os.reads child b.host).1).0 in
      let reads = (os.reads child b.host).0 in
      let (_, out, errors) = stream_output-chunks cmd_id code reads true true in
      let sent = stream_output-outputs cmd_id code reads true true in
      (
        ap (bytes_of OutputStream.stdout) sent ∙ out,
        ap (bytes_of OutputStream.stderr) sent ∙ errors,
        (_, refl),
        filed,
      )
