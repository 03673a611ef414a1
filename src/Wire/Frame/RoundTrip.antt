-- ===== src/Wire/Frame/RoundTrip.antt =====
-- What one side writes the other side reads.
use rustbox.Prelude.{
  ℕ, ◌%◌, ◌^◌, ◌≤◌, ◌<◌, Text, List, ◌++◌, Option, none, ok, length, ◌≡◌, ◌∙◌, arith, append_assoc,
}
use rustbox.Wire.Stream.{
  Writer, read_exact, to_be_bytes, from_be_bytes, from_be_bytes-to_be_bytes, read_exact-append,
}
use rustbox.Wire.Frame.{
  Codec, max_message_size, read_message, write_message, send_request, recv_response,
}

-- A writer that does not fail.
abbrev pub sound : List ℕ → Writer
sound bytes = record { written = bytes; fault = none; flush_fault = none }

-- The bytes of a message on the wire.
abbrev pub frame : List ℕ → List ℕ
frame payload = to_be_bytes (length payload % 2 ^ 32) ++ payload

module _ {A : Type 0} (codec : Codec A) (msg : A) (payload : List ℕ)
    (printed : codec.to_vec msg ≡ ok payload) (before : List ℕ) where
  pub write_message-sound :
      write_message codec msg (sound before) ≡ (ok tt, sound (before ++ frame payload))
  unfolding write_message
  write_message-sound = rw printed (rw append_assoc)

  pub send_request-sound :
      send_request codec msg (sound before) ≡ (ok tt, sound (before ++ frame payload))
  unfolding send_request
  send_request-sound = rw printed (rw append_assoc)

module _ (payload rest : List ℕ) (fault : Option Text) where
  pub read_length : read_exact 4 (record { bytes = frame payload ++ rest; fault = fault }) ≡ (
    ok (to_be_bytes (length payload % 2 ^ 32)),
    record { bytes = payload ++ rest; fault = fault },
  )
  unfolding to_be_bytes
  read_length =
      rw append_assoc
        (read_exact-append (to_be_bytes (length payload % 2 ^ 32)) (payload ++ rest) fault)

  pub prefix :
      length payload < 2 ^ 32
      → from_be_bytes (to_be_bytes (length payload % 2 ^ 32)) ≡ length payload
  prefix h = from_be_bytes-to_be_bytes _ (omega arith) ∙ omega arith

module _ {A : Type 0} (codec : Codec A) (msg : A) (payload rest : List ℕ) (fault : Option Text)
    (parsed : codec.from_slice payload ≡ ok msg) (fits : length payload ≤ max_message_size) where
  pub read_message-frame :
      read_message codec (record { bytes = frame payload ++ rest; fault = fault })
      ≡ (ok msg, record { bytes = rest; fault = fault })
  unfolding read_message
  read_message-frame = ground (
    arith,
    read_length payload rest fault,
    prefix payload rest fault,
    read_exact-append payload rest fault,
    parsed,
  )

  pub recv_response-frame :
      (eof : Text) (decimal : ℕ → Text)
      → recv_response codec eof decimal (record { bytes = frame payload ++ rest; fault = fault })
        ≡ (ok msg, record { bytes = rest; fault = fault })
  unfolding recv_response
  recv_response-frame eof decimal = ground (
    arith,
    read_length payload rest fault,
    prefix payload rest fault,
    read_exact-append payload rest fault,
    parsed,
  )
