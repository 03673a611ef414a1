-- ===== src/Wire/Streaming/Progress.antt =====
-- The fuel of `exec_streaming`, crates/rustbox-vm/src/agent_client.rs, on a stream that ends: a peer
-- that keeps its connection open and sends nothing is not such a stream.
use rustbox.Prelude.{
  ℕ, zero, suc, ◌+◌, ◌<◌, ◌≤◌, Text, List, [], ◌∷◌, some, Result, ok, err, length, drop, leb, ltb,
  ◌≡◌, refl, arith, Bool-cases, Result-cases, inl, inr,
}
use rustbox.Core.Error.{RustboxError}
use rustbox.Core.Protocol.{AgentRequest, AgentResponse}
use rustbox.Wire.Stream.{Reader, Writer, read_exact, from_be_bytes}
use rustbox.Wire.Frame.{Codec, send_request, recv_response, max_message_size}
use rustbox.Wire.Streaming.{Sink, Step, take_response, stream_outputs, exec_streaming}

length-drop :
    {A : Type 0} (n : ℕ) (xs : List A) → n ≤ length xs → length (drop n xs) + n ≡ length xs
length-drop zero xs h = omega arith
length-drop (suc n) [] h = absurd (omega arith)
length-drop (suc n) (x ∷ xs) h = omega (arith, length-drop n xs (omega arith))

-- A read that fills its buffer takes its bytes from the stream, and none puts bytes back.
read_exact-shorter :
    (n : ℕ) (r : Reader) (buf : List ℕ)
    → (read_exact n r).0 ≡ ok buf
    → length (read_exact n r).1.bytes + n ≡ length r.bytes
unfolding read_exact
read_exact-shorter n r buf e = elim (Bool-cases (leb n (length r.bytes))) [
  | inl enough ↦ rw enough (length-drop n r.bytes (ground (arith, enough)))
  | inr short ↦ absurd (ground (arith, short, e))
]

read_exact-no_longer : (n : ℕ) (r : Reader) → length (read_exact n r).1.bytes ≤ length r.bytes
unfolding read_exact
read_exact-no_longer n r = elim (Bool-cases (leb n (length r.bytes))) [
  | inl enough ↦ rw enough (omega (arith, length-drop n r.bytes (ground (arith, enough))))
  | inr short ↦ rw short (omega arith)
]

module _ {A : Type 0} (codec : Codec A) (eof : Text) (decimal : ℕ → Text) where
  pub recv_response-shorter :
      (r : Reader) (msg : A)
      → (recv_response codec eof decimal r).0 ≡ ok msg
      → length (recv_response codec eof decimal r).1.bytes < length r.bytes
  unfolding recv_response
  recv_response-shorter r msg e = elim (Result-cases (read_exact 4 r).0) [
    | inr (fault, f) ↦ absurd (ground (arith, f, e))
    | inl (buf, f) ↦ elim (Bool-cases (ltb max_message_size (from_be_bytes buf))) [
      | inl large ↦ absurd (ground (arith, f, large, e))
      | inr fits ↦
          let first = read_exact-shorter 4 r buf f in
          let second = read_exact-no_longer (from_be_bytes buf) (read_exact 4 r).1 in
          elim (Result-cases (read_exact (from_be_bytes buf) (read_exact 4 r).1).0) [
            | inl (payload, g) ↦ rw (f, fits, g) (omega (arith, first, second))
            | inr (fault, g) ↦ rw (f, fits, g) (omega (arith, first, second))
          ]
    ]
  ]

module _ (requests : Codec AgentRequest) (responses : Codec AgentResponse) (eof : Text)
    (decimal : ℕ → Text) where
  abbrev Ends : ℕ → Reader → Sink → Type 0
  Ends fuel r s =
      (result : Result RustboxError (Unit {0})) × ((stream_outputs requests responses eof decimal
          fuel r s).0
        ≡ some result)

  stream_outputs-Ends : (fuel : ℕ) (r : Reader) (s : Sink) → length r.bytes < fuel → Ends fuel r s
  unfolding stream_outputs
  stream_outputs-Ends zero r s h = absurd (omega arith)
  stream_outputs-Ends (suc fuel) r s h =
      elim (Result-cases (recv_response responses eof decimal r).0) [
        | inr (e, failed) ↦ (err e, rw (failed, stream_outputs) refl)
        | inl (resp, received) ↦
            let shorter = recv_response-shorter responses eof decimal r resp received in
            elim (Result-cases (take_response resp s).0) [
              | inr (e, refused) ↦ (err e, rw (received, refused, stream_outputs) refl)
              | inl (Step.stop, taken) ↦ (ok tt, rw (received, taken, stream_outputs) refl)
              | inl (Step.go_on, taken) ↦
                  rw (received, taken, stream_outputs)
                    (stream_outputs-Ends fuel (recv_response responses eof decimal r).1
                      (take_response resp s).1 (omega arith))
            ]
      ]

  -- On a stream that ends the loop has fuel enough: its length bounds the rounds.
  pub exec_streaming-ends :
      (request : AgentRequest) (w : Writer) (r : Reader) (s : Sink)
      → (result : Result RustboxError (Unit {0})) × ((exec_streaming requests responses eof decimal
            request w r s).0
          ≡ some result)
  unfolding exec_streaming
  exec_streaming-ends request w r s = elim (Result-cases (send_request requests request w).0) [
    | inr (e, failed) ↦ (err e, rw (failed, exec_streaming) refl)
    | inl (u, sent) ↦
        rw (sent, exec_streaming) (stream_outputs-Ends (suc (length r.bytes)) r s (omega arith))
  ]
