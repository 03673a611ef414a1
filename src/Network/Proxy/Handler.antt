-- ===== src/Network/Proxy/Handler.antt =====
-- The connection handlers of crates/rustbox-network/src/proxy.rs.
pub mod Policing
use rustbox.Prelude.{
  ℕ, Text, codes, List, [], ◌∷◌, ◌++◌, Bool, true, false, Option, none, some, Result, ok, err, Exec,
  lift, ◌>>=◌, ◌>>◌, mapping_err, map_err, ltb, if◌then◌else◌, length, is_empty, starts_with, take,
  gets,
}
use rustbox.Core.Network.{NetworkPolicy, TransformRule}
use rustbox.Network.Policy.{PolicyDecision, evaluate_connection, should_allow_domain}
use rustbox.Network.Proxy.Request.{
  ProxyError, header_terminator, inject_headers, extract_host, extract_port, domain_of, decimal,
}
use rustbox.Network.Proxy.Conversation.{
  Chunks, Upstream, Conversation, Surroundings, Handling, HeadRead, read_head,
  read_until_headers_end, read_inner, write_client, send_http_error, write_upstream, relay,
  max_header_size, has_headers_end, end_of_stream, write_to,
}
use rustbox.Wire.Stream.{Writer}

module _ (to_lowercase : Text → Text) {IpNet IpAddr : Type 0} (contains : IpNet → IpAddr → Bool)
    (around : Surroundings IpAddr) where
  open around use {resolve_domain, parse, is_utf8, connect, accept_tls, connect_tls, replies, turns}

  -- `TcpStream::connect(addr)`: whether it succeeded.
  connected : Text → Result Text Writer → Exec Conversation ProxyError (Result Text (Unit {0}))
  connected address (ok w) c =
      (ok (ok tt), record c { upstream = some (record { address = address; writer = w }) })
  connected address (err e) c = (ok (err e), c)

  open_upstream : Text → Handling (Result Text (Unit {0}))
  unfolding connected
  open_upstream address = connected address (connect address)

  decide_at : NetworkPolicy IpNet → Text → Option IpAddr → PolicyDecision
  decide_at policy domain (some ip) = evaluate_connection to_lowercase contains policy domain ip
  decide_at policy domain none =
      if should_allow_domain to_lowercase policy domain
      then PolicyDecision.allow
      else PolicyDecision.deny

  -- The decision that both handlers take on a domain.
  unfoldable pub decide : NetworkPolicy IpNet → Text → PolicyDecision
  unfolding decide_at
  decide policy domain = decide_at policy domain (resolve_domain domain)

  abbrev upstream_address : Text → ℕ → Text
  upstream_address domain port = domain ++ codes ":" ++ decimal port

  -- What `handle_plain_http` does once the bytes for the upstream are ready.
  after_connect : Text → Result Text (Unit {0}) → Handling (Unit {0})
  unfolding write_upstream relay send_http_error
  after_connect bytes (ok _) = do write_upstream bytes; relay replies turns
  after_connect bytes (err e) = send_http_error 502 (codes "Bad Gateway")

  forward_plain : Text → Text → Text → Handling (Unit {0})
  unfolding open_upstream after_connect
  forward_plain host domain bytes = do
    opened ← open_upstream (upstream_address domain (extract_port host 80))
    after_connect bytes opened

  plain_by_decision : PolicyDecision → List ℕ → Text → Text → Handling (Unit {0})
  unfolding forward_plain
  plain_by_decision PolicyDecision.deny buf host domain =
      send_http_error 403 (codes "Forbidden by network policy")
  plain_by_decision PolicyDecision.allow buf host domain = forward_plain host domain buf
  plain_by_decision (PolicyDecision.allow_with_transform rule) buf host domain = do
    bytes ← lift (inject_headers buf rule.headers)
    forward_plain host domain bytes

  abbrev or_empty : Option Text → Text
  or_empty none = []
  or_empty (some t) = t

  plain_request : NetworkPolicy IpNet → List ℕ → Handling (Unit {0})
  unfolding plain_by_decision decide
  plain_request policy buf = do
    req ←
        lift (map_err (λ e. ProxyError.invalid_data (codes "HTTP parse error: " ++ e)) (parse buf))
    let host = or_empty (extract_host is_utf8 req.headers)
    let domain = domain_of host
    if is_empty domain
        then send_http_error 400 (codes "Bad Request: missing Host header")
        else plain_by_decision (decide policy domain) buf host domain

  plain_head : NetworkPolicy IpNet → HeadRead → Handling (Unit {0})
  unfolding plain_request
  plain_head policy HeadRead.too_large =
      send_http_error 431 (codes "Request Header Fields Too Large")
  plain_head policy (HeadRead.head buf) =
      if is_empty buf then lift (ok tt) else plain_request policy buf

  unfoldable pub handle_plain_http : NetworkPolicy IpNet → Handling (Unit {0})
  unfolding plain_head read_until_headers_end
  handle_plain_http policy = do r ← read_until_headers_end; plain_head policy r

  abbrev established : Text
  established = codes "HTTP/1.1 200 Connection Established" ++ header_terminator

  -- The tunnel of `handle_https_connect`: a failed connection only closes the client's.
  after_tunnel : Result Text (Unit {0}) → Handling (Unit {0})
  unfolding relay
  after_tunnel (ok _) = relay replies turns
  after_tunnel (err e) = lift (ok tt)

  refused : Result Text (Unit {0}) → Result ProxyError (Unit {0})
  refused (ok _) = ok tt
  refused (err e) = err (ProxyError.other (codes "upstream: " ++ e))

  -- The request inside the client's TLS stream: its head, too large a head only ends the handler.
  intercepted : TransformRule → Text → HeadRead → Handling (Unit {0})
  unfolding write_upstream relay
  intercepted rule domain HeadRead.too_large = lift (ok tt)
  intercepted rule domain (HeadRead.head inner) = if is_empty inner then lift (ok tt) else do
    modified ← lift (inject_headers inner rule.headers)
    lift (connect_tls domain)
    write_upstream modified
    relay replies turns

  open_tunnel : Text → Text → Handling (Unit {0})
  unfolding open_upstream after_tunnel
  open_tunnel path domain = do
    opened ← open_upstream (upstream_address domain (extract_port path 443))
    after_tunnel opened

  -- The client's handshake and its request, once the upstream connection was tried.
  after_upstream : TransformRule → Text → Result Text (Unit {0}) → Handling (Unit {0})
  unfolding refused intercepted read_inner
  after_upstream rule domain opened = do
    lift (refused opened)
    sent ← lift (accept_tls domain)
    inner ← read_inner sent
    intercepted rule domain inner

  intercept : TransformRule → Text → Text → Handling (Unit {0})
  unfolding open_upstream after_upstream
  intercept rule path domain = do
    opened ← open_upstream (upstream_address domain (extract_port path 443))
    after_upstream rule domain opened

  connect_by_decision : PolicyDecision → Text → Text → Handling (Unit {0})
  unfolding open_tunnel intercept
  connect_by_decision PolicyDecision.deny path domain =
      send_http_error 403 (codes "Forbidden by network policy")
  connect_by_decision (PolicyDecision.allow_with_transform rule) path domain = do
    write_client established
    intercept rule path domain
  connect_by_decision PolicyDecision.allow path domain = do
    write_client established
    open_tunnel path domain

  connect_request : NetworkPolicy IpNet → List ℕ → Handling (Unit {0})
  unfolding connect_by_decision decide
  connect_request policy buf = do
    req ← lift (map_err (λ e. ProxyError.invalid_data (codes "CONNECT parse: " ++ e)) (parse buf))
    let path = or_empty req.path
    let domain = domain_of path
    if is_empty domain
        then send_http_error 400 (codes "Bad Request")
        else connect_by_decision (decide policy domain) path domain

  connect_head : NetworkPolicy IpNet → HeadRead → Handling (Unit {0})
  unfolding connect_request
  connect_head policy HeadRead.too_large =
      send_http_error 431 (codes "Request Header Fields Too Large")
  connect_head policy (HeadRead.head buf) =
      if is_empty buf then lift (ok tt) else connect_request policy buf

  unfoldable pub handle_https_connect : NetworkPolicy IpNet → Handling (Unit {0})
  unfolding connect_head read_until_headers_end
  handle_https_connect policy = do r ← read_until_headers_end; connect_head policy r

  -- `stream.peek` into eight bytes
  peeked : Chunks → Result ProxyError (List ℕ)
  peeked incoming = elim incoming.chunks [
    | [] ↦ elim incoming.fault [ none ↦ ok [] | some e ↦ err (ProxyError.other e) ]
    | chunk ∷ _ ↦ ok (take 8 chunk)
  ]

  unfoldable pub handle_connection : NetworkPolicy IpNet → Handling (Unit {0})
  unfolding peeked
  handle_connection policy = do
    peek_buf ← gets (λ c. peeked c.incoming)
    if is_empty peek_buf
        then lift (ok tt)
        else if starts_with (codes "CONNECT ") peek_buf
        then handle_https_connect policy
        else handle_plain_http policy
