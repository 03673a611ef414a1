-- ===== src/Agent/Connection.antt =====
-- `handle_connection` of crates/rustbox-agent/src/main.rs. The requests of one connection are handled
-- one after the other; what the handler does goes on also when its responses cannot be written.
pub mod Serving
use rustbox.Prelude.{ℕ, zero, suc, Text, Option, none, some, Result, ok, err}
use rustbox.Core.Protocol.{AgentRequest, AgentResponse}
use rustbox.Wire.Stream.{IoError, Reader, Writer, flush}
use rustbox.Wire.Frame.{Codec, TransportError, read_message, write_message}
use rustbox.Wire.Frame.Sequence.{send_all}
use rustbox.Agent.Guest.{Guest}
use rustbox.Agent.Executor.{CommandExecutor}
use rustbox.Agent.Handler.{handle_request}

pub record Connection (G : Type 0) : Type 0 where
  pub reader : Reader
  pub writer : Writer
  pub executor : CommandExecutor G

module _ {G : Type 0} (guest : Guest G) (requests : Codec AgentRequest)
    (responses : Codec AgentResponse) where
  -- Each round reads a request of at least four bytes, so the length of the stream bounds the
  -- rounds; `none` is the end of the fuel.
  unfoldable pub handle_connection :
      ℕ → Connection G → Option (Result TransportError (Unit {0})) × Connection G
  handle_connection zero c = (none, c)
  handle_connection (suc fuel) c =
      let (received, r) = read_message requests c.reader in
      elim received [
        | err TransportError.connection_closed ↦ (some (ok tt), record c { reader = r })
        | err (TransportError.io e) ↦ (some (err (TransportError.io e)), record c { reader = r })
        | err (TransportError.json e) ↦
            (some (err (TransportError.json e)), record c { reader = r })
        | err (TransportError.message_too_large n) ↦
            (some (err (TransportError.message_too_large n)), record c { reader = r })
        | ok request ↦
            let (answers, ex) = handle_request guest request c.executor in
            let (forwarded, w) = send_all (write_message responses) answers c.writer in
            elim forwarded [
              | err e ↦ (some (err e), record { reader = r; writer = w; executor = ex })
              | ok _ ↦
                  let (flushed, w') = flush w in
                  elim flushed [
                    | err e ↦ (
                      some (err (TransportError.io (IoError.other e))),
                      record { reader = r; writer = w'; executor = ex },
                    )
                    | ok _ ↦
                        handle_connection fuel (record { reader = r; writer = w'; executor = ex })
                  ]
            ]
      ]
