-- ===== src/Agent/Connection/Serving.antt =====
-- A whole connection of the agent, crates/rustbox-agent/src/main.rs. `serde_json` prints every
-- message; `print` is what it prints.
use rustbox.Prelude.{
  ℕ, zero, suc, ◌%◌, ◌^◌, ◌<◌, List, [], ◌∷◌, ◌++◌, Option, none, some, ok, length, ◌≡◌, refl, sym,
  ap, ap₂, length-append, Result, err, ◌∙◌, arith, All, append_assoc, append-nil,
}
use rustbox.Core.Protocol.{AgentRequest, AgentResponse}
use rustbox.Wire.Stream.{IoError, Reader, Writer, flush, read_exact, to_be_bytes}
use rustbox.Wire.Frame.{Codec, TransportError, IsWireCompatible, read_message, write_message}
use rustbox.Wire.Frame.RoundTrip.{sound, frame, read_message-frame, write_message-sound}
use rustbox.Wire.Frame.Sequence.{Fits, frames, send_all}
use rustbox.Agent.Guest.{Guest}
use rustbox.Agent.Executor.{CommandExecutor}
use rustbox.Agent.Handler.{handle_request}
use rustbox.Agent.Connection.{Connection, handle_connection}

-- A codec whose printer never fails.
abbrev pub Prints : {A : Type 0} → Codec A → (A → List ℕ) → Type 0
Prints {A} codec print = (a : A) → codec.to_vec a ≡ ok (print a)

abbrev pub framed : {A : Type 0} → (A → List ℕ) → List A → List ℕ
framed print [] = []
framed print (msg ∷ msgs) = frame (print msg) ++ framed print msgs

framed-append :
    {A : Type 0} (print : A → List ℕ) (xs ys : List A)
    → framed print (xs ++ ys) ≡ framed print xs ++ framed print ys
framed-append print [] ys = refl
framed-append print (x ∷ xs) ys =
    ap (λ l. frame (print x) ++ l) (framed-append print xs ys)
    ∙ sym (append_assoc (frame (print x)) (framed print xs) (framed print ys))

module _ {A : Type 0} (codec : Codec A) (print : A → List ℕ) (prints : Prints codec print) where
  send_all-framed :
      (msgs : List A) (before : List ℕ)
      → send_all (write_message codec) msgs (sound before)
        ≡ (ok tt, sound (before ++ framed print msgs))
  send_all-framed [] before = rw append-nil
  send_all-framed (msg ∷ msgs) before =
      rw (write_message-sound codec msg (print msg) (prints msg) before)
        (send_all-framed msgs (before ++ frame (print msg)) ∙ rw append_assoc)

-- The requests in order, each to its end: all responses, and the executor at last.
module _ {G : Type 0} (guest : Guest G) where
  abbrev pub handle_all :
      List AgentRequest → CommandExecutor G → List AgentResponse × CommandExecutor G
  handle_all [] ex = ([], ex)
  handle_all (req ∷ reqs) ex =
      let (answers, ex') = handle_request guest req ex in
      let (later, ex'') = handle_all reqs ex' in (answers ++ later, ex'')

length-frame : (payload rest : List ℕ) → length rest < length (frame payload ++ rest)
unfolding to_be_bytes
length-frame payload rest = omega (
  arith,
  length-append (to_be_bytes (length payload % 2 ^ 32)) payload,
  length-append (frame payload) rest,
)

module _ {G : Type 0} (guest : Guest G) (client requests : Codec AgentRequest)
    (responses : Codec AgentResponse) (print : AgentResponse → List ℕ)
    (prints : Prints responses print) (compatible : IsWireCompatible client requests) where
  -- A connection on which requests within 16 MiB arrive before it is closed, and to which every write
  -- succeeds: each request is handled in the order of their arrival, all responses go out in order, and the
  -- connection ends without an error.
  pub handle_connection-handle_all :
      (fuel : ℕ) (reqs : List AgentRequest) (fits : All (Fits client) reqs) (before : List ℕ)
      (ex : CommandExecutor G)
      → length (frames client reqs fits) < fuel
      → handle_connection guest requests responses fuel (record {
        reader = record { bytes = frames client reqs fits; fault = none };
        writer = sound before;
        executor = ex;
      })
        ≡ (
          some (ok tt),
          record {
            reader = record { bytes = []; fault = none };
            writer = sound (before ++ framed print (handle_all guest reqs ex).0);
            executor = (handle_all guest reqs ex).1;
          },
        )
  unfolding handle_connection read_message read_exact flush
  handle_connection-handle_all zero reqs fits before ex h = absurd (omega arith)
  handle_connection-handle_all (suc fuel) [] fits before ex h = rw append-nil
  handle_connection-handle_all (suc fuel) (req ∷ reqs) (fit, fits) before ex h =
      let rest = frames client reqs fits in
      let (answers, ex') = handle_request guest req ex in
      let received =
        read_message-frame requests req fit.0 rest none (compatible req fit.0 fit.1) fit.2 in
      let sent = send_all-framed responses print prints answers before in
      let shorter = length-frame fit.0 rest in
      let left : length rest < fuel = omega (arith, h, shorter) in
      let later =
        handle_connection-handle_all fuel reqs fits (before ++ framed print answers) ex' left in
      let settle : Result TransportError AgentRequest × Reader
          → Result TransportError (Unit {0}) × Writer
          → Option (Result TransportError (Unit {0})) × Connection G =
        λ p q.
          (let (flushed, w) = flush q.1 in
            elim flushed [
              | err e ↦ (
                some (err (TransportError.io (IoError.other e))),
                record { reader = p.1; writer = w; executor = ex' },
              )
              | ok _ ↦
                  handle_connection guest requests responses fuel
                    (record { reader = p.1; writer = w; executor = ex' })
            ]) in
      rw (handle_connection, received, sent)
        (ap₂ settle received sent
          ∙ later
          ∙ ap
              (λ bytes. (
                some (ok tt),
                record {
                  reader = record { bytes = []; fault = none };
                  writer = sound bytes;
                  executor = (handle_all guest reqs ex').1;
                },
              ))
              (append_assoc before (framed print answers)
                  (framed print (handle_all guest reqs ex').0)
                ∙ ap (λ l. before ++ l)
                    (sym (framed-append print answers (handle_all guest reqs ex').0))))
