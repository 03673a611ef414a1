-- ===== src/Wire/Frame/Errors.antt =====
-- How the agent's `read_message` and the daemon's `recv_response` fail, and what an oversized
-- message does.
use rustbox.Prelude.{
  ℕ, ◌^◌, ◌≤◌, ◌<◌, Text, codes, List, [], ◌++◌, Option, none, some, ok, err, length, ◌≡◌, arith,
}
use rustbox.Core.Error.{RustboxError}
use rustbox.Wire.Stream.{
  IoError, to_be_bytes, from_be_bytes-to_be_bytes, read_exact-append, read_exact-short,
}
use rustbox.Wire.Frame.{
  Codec, max_message_size, TransportError, read_message, write_message, recv_response,
}
use rustbox.Wire.Frame.RoundTrip.{sound, frame, write_message-sound, read_length, prefix}

module _ {A : Type 0} (codec : Codec A) where
  -- A stream that holds fewer than four bytes ends as a closed connection, and one that fails there
  -- reports that error.
  pub read_message-short :
      (bytes : List ℕ) (fault : Option Text)
      → length bytes < 4
      → (read_message codec (record { bytes = bytes; fault = fault })).0
        ≡ err (elim fault [
          | none ↦ TransportError.connection_closed
          | some e ↦ TransportError.io (IoError.other e)
        ])
  unfolding read_message
  read_message-short bytes none h = rw (read_exact-short 4 bytes none h)
  read_message-short bytes (some e) h = rw (read_exact-short 4 bytes (some e) h)

  -- A stream that ends within the payload is an I/O error, never a closed connection.
  pub read_message-truncated :
      (len : ℕ) (part : List ℕ) (fault : Option Text)
      → len ≤ max_message_size
      → length part < len
      → (read_message codec (record { bytes = to_be_bytes len ++ part; fault = fault })).0
        ≡ err (
            TransportError.io
              (elim fault [ none ↦ IoError.unexpected_eof | some e ↦ IoError.other e ]))
  unfolding read_message to_be_bytes
  read_message-truncated len part none small h = ground (
    arith,
    read_exact-append (to_be_bytes len) part none,
    from_be_bytes-to_be_bytes len,
    read_exact-short len part none h,
  )
  read_message-truncated len part (some e) small h = ground (
    arith,
    read_exact-append (to_be_bytes len) part (some e),
    from_be_bytes-to_be_bytes len,
    read_exact-short len part (some e) h,
  )

  -- A message whose JSON is longer than 16 MiB and shorter than 4 GiB goes out without an error,
  -- and the daemon, which reads only its length, refuses it.
  pub recv_response-oversized :
      (eof : Text) (decimal : ℕ → Text) (msg : A) (payload rest : List ℕ) (fault : Option Text)
      → codec.to_vec msg ≡ ok payload
      → max_message_size < length payload
      → length payload < 2 ^ 32
      → (write_message codec msg (sound []) ≡ (ok tt, sound (frame payload)))
        × (recv_response codec eof decimal (record { bytes = frame payload ++ rest; fault = fault })
            ≡ (
              err (
                  RustboxError.agent_comm
                    (codes "message too large: " ++ (decimal (length payload) ++ codes " bytes"))),
              record { bytes = payload ++ rest; fault = fault },
            ))
  unfolding recv_response
  recv_response-oversized eof decimal msg payload rest fault printed large below = (
    write_message-sound codec msg payload printed [],
    rw (read_length payload rest fault) (rw (prefix payload rest fault below) (ground (arith))),
  )
