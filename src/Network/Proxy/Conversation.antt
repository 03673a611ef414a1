-- ===== src/Network/Proxy/Conversation.antt =====
-- One connection of the proxy in crates/rustbox-network/src/proxy.rs: its reads and writes, and what
-- surrounds it. A conversation holds what the client's reads deliver, the client's side of the
-- socket and the upstream connection once it is open; inside TLS these are the plain bytes. DNS, the
-- parser of `httparse`, TLS, the upstream servers and the scheduler are the fields of `Surroundings`.
use rustbox.Prelude.{
  ℕ, Text, List, [], ◌∷◌, ◌++◌, Bool, true, false, Option, none, some, Result, ok, err, Exec,
  map_err, ltb, if◌then◌else◌, length, is_empty, take,
}
use rustbox.Network.Proxy.Request.{ProxyError, Request, header_end, http_error}
use rustbox.Wire.Stream.{Writer, write_all, flush}

-- The chunks that the reads of a stream deliver, and the end of the stream or an error.
pub record Chunks : Type 0 where
  pub chunks : List (List ℕ)
  pub fault : Option Text

pub record Upstream : Type 0 where
  pub address : Text
  pub writer : Writer

pub record Conversation : Type 0 where
  pub incoming : Chunks
  pub client : Writer
  pub upstream : Option Upstream

pub record Surroundings (IpAddr : Type 0) : Type 0 where
  pub resolve_domain : Text → Option IpAddr
  pub parse : List ℕ → Result Text Request
  pub is_utf8 : List ℕ → Bool
  pub connect : Text → Result Text Writer
  -- A certificate for the domain is issued and the client's handshake accepted: what it then sends.
  pub accept_tls : Text → Result ProxyError Chunks
  pub connect_tls : Text → Result ProxyError (Unit {0})
  -- What the reads of an upstream deliver to a client that still sends this.
  pub replies : Upstream → Chunks → Chunks
  -- How many reads of the client and of the upstream the two copies of a relay have behind them when
  -- a failure of one of them ends both.
  pub turns : ℕ × ℕ

abbrev pub Handling : Type 0 → Type 0
Handling A = Exec Conversation ProxyError A

abbrev pub max_header_size : ℕ
max_header_size = 65536

abbrev pub has_headers_end : List ℕ → Bool
has_headers_end buf = elim (header_end buf) [ none ↦ false | some n ↦ true ]

-- How a read of the head ends: with the bytes so far, or too many of them.
pub data HeadRead : Type 0 where
  head : List ℕ → HeadRead
  too_large : HeadRead

unfoldable pub end_of_stream : Option Text → List ℕ → Result ProxyError HeadRead
end_of_stream none buf = ok (HeadRead.head buf)
end_of_stream (some e) buf = err (ProxyError.other e)

-- The loop over the reads, with the bytes so far. A read of no bytes is the end of the stream.
unfoldable pub read_head :
    List ℕ → List (List ℕ) → Option Text → Result ProxyError HeadRead × Chunks
unfolding end_of_stream
read_head buf [] fault = (end_of_stream fault buf, record { chunks = []; fault = fault })
read_head buf (chunk ∷ chunks) fault =
    let rest = read_head (buf ++ chunk) chunks fault in
    if is_empty chunk
    then (ok (HeadRead.head buf), record { chunks = chunks; fault = fault })
    else if has_headers_end (buf ++ chunk)
    then (ok (HeadRead.head (buf ++ chunk)), record { chunks = chunks; fault = fault })
    else if ltb max_header_size (length (buf ++ chunk))
    then (ok HeadRead.too_large, record { chunks = chunks; fault = fault })
    else rest

unfoldable pub read_until_headers_end : Handling HeadRead
unfolding read_head
read_until_headers_end c =
    let (r, incoming) = read_head [] c.incoming.chunks c.incoming.fault in
    (r, record c { incoming = incoming })

-- The head of a request inside the client's TLS stream, which delivers these reads.
unfoldable pub read_inner : Chunks → Handling HeadRead
unfolding read_head
read_inner sent c =
    let (r, incoming) = read_head [] sent.chunks sent.fault in (r, record c { incoming = incoming })

-- `stream.write_all(bytes).await?`
unfoldable pub write_client : Text → Handling (Unit {0})
write_client bytes c =
    let (r, w) = write_all bytes c.client in (map_err ProxyError.other r, record c { client = w })

unfoldable pub send_http_error : ℕ → Text → Handling (Unit {0})
unfolding write_client
send_http_error status message = write_client (http_error status message)

unfoldable pub write_to : Option Upstream → Text → Result ProxyError (Unit {0}) × Option Upstream
write_to none bytes = (ok tt, none)
write_to (some u) bytes =
    let (r, w) = write_all bytes u.writer in
    (map_err ProxyError.other r, some (record u { writer = w }))

-- `upstream.write_all(bytes).await?`
unfoldable pub write_upstream : Text → Handling (Unit {0})
unfolding write_to
write_upstream bytes c = let (r, u) = write_to c.upstream bytes in (r, record c { upstream = u })

-- `tokio::io::copy`: all reads go to the writer, which is flushed at the end.
unfoldable pub copy : List (List ℕ) → Option Text → Exec Writer Text (Unit {0})
copy [] none w = flush w
copy [] (some e) w = (err e, w)
copy (chunk ∷ chunks) fault w =
    let rest = copy chunks fault (write_all chunk w).1 in
    if is_empty chunk
    then flush w
    else elim (write_all chunk w).0 [ err e ↦ (err e, (write_all chunk w).1) | ok _ ↦ rest ]

-- `try_join!` of the copies from the client and from the upstream: an error of one ends the other
-- where it stands. It is not returned.
unfoldable pub join_copies : Chunks → Chunks → ℕ × ℕ → Writer → Writer → Writer × Writer
unfolding copy
join_copies sent replies turns up down =
    let (r1, up') = copy sent.chunks sent.fault up in
    let (r2, down') = copy replies.chunks replies.fault down in
    elim r1 [
      | err e ↦ (up', (copy (take turns.1 replies.chunks) replies.fault down).1)
      | ok _ ↦ elim r2 [
        | err e ↦ ((copy (take turns.0 sent.chunks) sent.fault up).1, down')
        | ok _ ↦ (up', down')
      ]
    ]

-- `relay_bidirectional`, behind which both connections are closed.
unfoldable pub relay : (Upstream → Chunks → Chunks) → ℕ × ℕ → Handling (Unit {0})
unfolding join_copies
relay replies turns c = elim c.upstream [
  | none ↦ (ok tt, c)
  | some u ↦
      let (up, down) = join_copies c.incoming (replies u c.incoming) turns u.writer c.client in
      (
        ok tt,
        record c {
          incoming = record { chunks = []; fault = none };
          client = down;
          upstream = some (record u { writer = up });
        },
      )
]
