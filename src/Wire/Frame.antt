-- ===== src/Wire/Frame.antt =====
-- `read_message` and `write_message` of transport.rs, `send_request` and `recv_response` of
-- agent_client.rs. A codec stands for `serde_json` at a type of messages.
pub mod RoundTrip
pub mod Sequence
pub mod Errors
use rustbox.Prelude.{
  ℕ, ◌*◌, ◌%◌, ◌^◌, Text, codes, List, ◌++◌, ltb, if◌then◌else◌, Result, ok, err, Exec, ◌>>=◌, ◌>>◌,
  lift, mapping_err, length, ◌≡◌, map_err,
}
use rustbox.Core.Error.{RustboxError}
use rustbox.Wire.Stream.{
  IoError, Reader, Writer, read_exact, write_all, flush, to_be_bytes, from_be_bytes, io_text,
}

pub record Codec (A : Type 0) : Type 0 where
  pub to_vec : A → Result Text (List ℕ)
  pub from_slice : List ℕ → Result Text A

-- What one side prints the other side parses back.
abbrev pub IsWireCompatible : {A : Type 0} → Codec A → Codec A → Type 0
IsWireCompatible {A} sender receiver =
    (a : A) (payload : List ℕ) → sender.to_vec a ≡ ok payload → receiver.from_slice payload ≡ ok a

-- 16 MiB
abbrev pub max_message_size : ℕ
max_message_size = 16 * 1024 * 1024

pub data TransportError : Type 0 where
  io : IoError → TransportError
  json : Text → TransportError
  message_too_large : ℕ → TransportError
  connection_closed : TransportError

module _ {A : Type 0} (codec : Codec A) where
  -- The end of the stream inside the length prefix counts as a closed connection.
  length_error : IoError → TransportError
  length_error IoError.unexpected_eof = TransportError.connection_closed
  length_error (IoError.other e) = TransportError.io (IoError.other e)

  read_payload : ℕ → Exec Reader TransportError A
  read_payload len = do
    buf ← mapping_err TransportError.io (read_exact len)
    lift (map_err TransportError.json (codec.from_slice buf))

  unfoldable pub read_message : Exec Reader TransportError A
  unfolding length_error read_payload
  read_message = do
    len_buf ← mapping_err length_error (read_exact 4)
    let len = from_be_bytes len_buf
    if ltb max_message_size len
        then lift (err (TransportError.message_too_large len))
        else read_payload len

  -- `payload.len() as u32` keeps the low 32 bits of the length.
  unfoldable pub write_message : A → Exec Writer TransportError (Unit {0})
  unfolding write_all flush
  write_message msg = do
    payload ← lift (map_err TransportError.json (codec.to_vec msg))
    let len = length payload % 2 ^ 32
    mapping_err (λ e. TransportError.io (IoError.other e)) (write_all (to_be_bytes len))
    mapping_err (λ e. TransportError.io (IoError.other e)) (write_all payload)
    mapping_err (λ e. TransportError.io (IoError.other e)) flush

  unfoldable pub send_request : A → Exec Writer RustboxError (Unit {0})
  unfolding write_all flush
  send_request req = do
    payload ← lift (map_err RustboxError.json (codec.to_vec req))
    let len = length payload % 2 ^ 32
    mapping_err (λ e. RustboxError.agent_comm (codes "write length: " ++ e))
        (write_all (to_be_bytes len))
    mapping_err (λ e. RustboxError.agent_comm (codes "write payload: " ++ e)) (write_all payload)
    mapping_err (λ e. RustboxError.agent_comm (codes "flush: " ++ e)) flush

  -- `eof` and `decimal` are the texts of `UnexpectedEof` and of a number.
  module _ (eof : Text) (decimal : ℕ → Text) where
    recv_payload : ℕ → Exec Reader RustboxError A
    recv_payload len = do
      buf ←
          mapping_err (λ e. RustboxError.agent_comm (codes "read payload: " ++ io_text eof e))
            (read_exact len)
      lift (map_err RustboxError.json (codec.from_slice buf))

    unfoldable pub recv_response : Exec Reader RustboxError A
    unfolding recv_payload
    recv_response = do
      len_buf ←
          mapping_err (λ e. RustboxError.agent_comm (codes "read length: " ++ io_text eof e))
            (read_exact 4)
      let len = from_be_bytes len_buf
      if ltb max_message_size len
          then lift (
              err (
                RustboxError.agent_comm
                  (codes "message too large: " ++ (decimal len ++ codes " bytes"))))
          else recv_payload len
