-- ===== src/Network/Proxy/Handler/Policing.antt =====
-- What the handlers of crates/rustbox-network/src/proxy.rs connect to.
use rustbox.Prelude.{
  ℕ, Text, codes, List, ◌++◌, Bool, Option, none, some, Result, ok, err, ◌≡◌, ◌≢◌, refl, sym, subst,
  Option-cases, inl, inr,
}
use rustbox.Prelude.Keeps.{Keeps, keeps_rules, Keeps-bind, Keeps-lift}
use rustbox.Core.Network.{NetworkPolicy, TransformRule}
use rustbox.Wire.Stream.{Writer}
use rustbox.Network.Policy.{PolicyDecision}
use rustbox.Network.Proxy.Request.{decimal, extract_port}
use rustbox.Network.Proxy.Conversation.{
  Chunks, read_inner, HeadRead, Conversation, Upstream, Surroundings, write_client, send_http_error,
  read_until_headers_end, write_upstream, write_to, relay,
}
use rustbox.Network.Proxy.Handler.{
  connected, open_upstream, decide, after_connect, forward_plain, plain_by_decision, plain_request,
  plain_head, handle_plain_http, after_tunnel, intercepted, after_upstream, open_tunnel, intercept,
  connect_by_decision, connect_request, connect_head, handle_https_connect, handle_connection,
}

module _ (to_lowercase : Text → Text) {IpNet IpAddr : Type 0} (contains : IpNet → IpAddr → Bool)
    (around : Surroundings IpAddr) (policy : NetworkPolicy IpNet) where
  -- An address that the policy lets the proxy connect to.
  abbrev pub IsPermitted : Text → Type 0
  IsPermitted address =
      (domain : Text) × (port : ℕ) × (address ≡ domain ++ codes ":" ++ decimal port)
      × (decide to_lowercase contains around policy domain ≢ PolicyDecision.deny)

  abbrev pub PermittedUpstream : Option Upstream → Type 0
  PermittedUpstream none = Unit
  PermittedUpstream (some u) = IsPermitted u.address

  abbrev pub IsPoliced : Conversation → Type 0
  IsPoliced c = PermittedUpstream c.upstream

  write_client-Keeps : (bytes : Text) → Keeps IsPoliced (write_client bytes)
  unfolding write_client
  write_client-Keeps bytes = record { after = λ c h. h }

  send_http_error-Keeps :
      (status : ℕ) (message : Text) → Keeps IsPoliced (send_http_error status message)
  unfolding send_http_error
  send_http_error-Keeps status message = write_client-Keeps _

  read_until_headers_end-Keeps : Keeps IsPoliced read_until_headers_end
  unfolding read_until_headers_end
  read_until_headers_end-Keeps = record { after = λ c h. h }

  read_inner-Keeps : (sent : Chunks) → Keeps IsPoliced (read_inner sent)
  unfolding read_inner
  read_inner-Keeps sent = record { after = λ c h. h }

  relay-Keeps : Keeps IsPoliced (relay around.replies around.turns)
  unfolding relay
  relay-Keeps = record {
    after = λ c h. elim (Option-cases c.upstream) [
      | inl e ↦ rw (e, relay) h
      | inr (u, e) ↦ rw (e, relay) (subst PermittedUpstream e h)
    ];
  }

  write_to-PermittedUpstream :
      (u : Option Upstream) (bytes : Text)
      → PermittedUpstream u
      → PermittedUpstream (write_to u bytes).1
  unfolding write_to
  write_to-PermittedUpstream none bytes h = tt
  write_to-PermittedUpstream (some u) bytes h = h

  write_upstream-Keeps : (bytes : Text) → Keeps IsPoliced (write_upstream bytes)
  unfolding write_upstream
  write_upstream-Keeps bytes = record {
    after = λ c h. write_to-PermittedUpstream c.upstream bytes h;
  }

  connected-IsPoliced :
      (address : Text) (r : Result Text Writer) (c : Conversation)
      → IsPermitted address
      → IsPoliced c
      → IsPoliced (connected to_lowercase contains around address r c).1
  unfolding connected
  connected-IsPoliced address (ok w) c permitted h = permitted
  connected-IsPoliced address (err e) c permitted h = h

  open_upstream-Keeps :
      (address : Text)
      → IsPermitted address
      → Keeps IsPoliced (open_upstream to_lowercase contains around address)
  unfolding open_upstream
  open_upstream-Keeps address permitted = record {
    after = λ c. connected-IsPoliced address (around.connect address) c permitted;
  }

  ruleset policed_rules = (
    keeps_rules, send_http_error-Keeps, write_client-Keeps, read_until_headers_end-Keeps,
    relay-Keeps, read_inner-Keeps, write_upstream-Keeps, open_upstream-Keeps,
  )

  after_connect-Keeps :
      (bytes : Text) (r : Result Text (Unit {0}))
      → Keeps IsPoliced (after_connect to_lowercase contains around bytes r)
  unfolding after_connect
  after_connect-Keeps bytes (ok _) = search policed_rules
  after_connect-Keeps bytes (err e) = search policed_rules

  forward_plain-Keeps :
      (host domain bytes : Text)
      → decide to_lowercase contains around policy domain ≢ PolicyDecision.deny
      → Keeps IsPoliced (forward_plain to_lowercase contains around host domain bytes)
  unfolding forward_plain
  forward_plain-Keeps host domain bytes allowed =
      Keeps-bind _ _ (open_upstream-Keeps _ (domain, extract_port host 80, refl, allowed))
        (after_connect-Keeps bytes)

  plain_by_decision-Keeps :
      (decision : PolicyDecision) (buf : List ℕ) (host domain : Text)
      → decide to_lowercase contains around policy domain ≡ decision
      → Keeps IsPoliced (plain_by_decision to_lowercase contains around decision buf host domain)
  unfolding plain_by_decision
  plain_by_decision-Keeps PolicyDecision.deny buf host domain e = search policed_rules
  plain_by_decision-Keeps PolicyDecision.allow buf host domain e =
      forward_plain-Keeps host domain buf (λ denied. cc)
  plain_by_decision-Keeps (PolicyDecision.allow_with_transform rule) buf host domain e =
      Keeps-bind _ _ (Keeps-lift _) λ bytes. forward_plain-Keeps host domain bytes (λ denied. cc)

  plain_decided-Keeps :
      (buf : List ℕ) (host domain : Text)
      → Keeps IsPoliced (
          plain_by_decision to_lowercase contains around
            (decide to_lowercase contains around policy domain)
            buf
            host
            domain)
  plain_decided-Keeps buf host domain = plain_by_decision-Keeps _ buf host domain refl

  plain_request-Keeps :
      (buf : List ℕ) → Keeps IsPoliced (plain_request to_lowercase contains around policy buf)
  unfolding plain_request
  plain_request-Keeps buf = search (policed_rules, plain_decided-Keeps) depth 9

  plain_head-Keeps :
      (r : HeadRead) → Keeps IsPoliced (plain_head to_lowercase contains around policy r)
  unfolding plain_head
  plain_head-Keeps HeadRead.too_large = send_http_error-Keeps _ _
  plain_head-Keeps (HeadRead.head buf) = search (policed_rules, plain_request-Keeps) depth 9

  handle_plain_http-Keeps : Keeps IsPoliced (handle_plain_http to_lowercase contains around policy)
  unfolding handle_plain_http
  handle_plain_http-Keeps = search (policed_rules, plain_head-Keeps) depth 9

  after_tunnel-Keeps :
      (r : Result Text (Unit {0})) → Keeps IsPoliced (after_tunnel to_lowercase contains around r)
  unfolding after_tunnel
  after_tunnel-Keeps (ok _) = relay-Keeps
  after_tunnel-Keeps (err e) = Keeps-lift _

  intercepted-Keeps :
      (rule : TransformRule) (domain : Text) (inner : HeadRead)
      → Keeps IsPoliced (intercepted to_lowercase contains around rule domain inner)
  unfolding intercepted
  intercepted-Keeps rule domain HeadRead.too_large = Keeps-lift _
  intercepted-Keeps rule domain (HeadRead.head inner) = search policed_rules depth 9

  after_upstream-Keeps :
      (rule : TransformRule) (domain : Text) (opened : Result Text (Unit {0}))
      → Keeps IsPoliced (after_upstream to_lowercase contains around rule domain opened)
  unfolding after_upstream
  after_upstream-Keeps rule domain opened = search (policed_rules, intercepted-Keeps) depth 9

  connect_by_decision-Keeps :
      (decision : PolicyDecision) (path domain : Text)
      → decide to_lowercase contains around policy domain ≡ decision
      → Keeps IsPoliced (connect_by_decision to_lowercase contains around decision path domain)
  unfolding connect_by_decision open_tunnel intercept
  connect_by_decision-Keeps PolicyDecision.deny path domain e = search policed_rules
  connect_by_decision-Keeps PolicyDecision.allow path domain e =
      let opens = open_upstream-Keeps _ (domain, extract_port path 443, refl, λ denied. cc) in
      Keeps-bind _ _ (write_client-Keeps _) λ _. Keeps-bind _ _ opens after_tunnel-Keeps
  connect_by_decision-Keeps (PolicyDecision.allow_with_transform rule) path domain e =
      let opens = open_upstream-Keeps _ (domain, extract_port path 443, refl, λ denied. cc) in
      Keeps-bind _ _ (write_client-Keeps _)
        λ _. Keeps-bind _ _ opens (after_upstream-Keeps rule domain)

  connect_decided-Keeps :
      (path domain : Text)
      → Keeps IsPoliced (
          connect_by_decision to_lowercase contains around
            (decide to_lowercase contains around policy domain)
            path
            domain)
  connect_decided-Keeps path domain = connect_by_decision-Keeps _ path domain refl

  connect_request-Keeps :
      (buf : List ℕ) → Keeps IsPoliced (connect_request to_lowercase contains around policy buf)
  unfolding connect_request
  connect_request-Keeps buf = search (policed_rules, connect_decided-Keeps) depth 9

  connect_head-Keeps :
      (r : HeadRead) → Keeps IsPoliced (connect_head to_lowercase contains around policy r)
  unfolding connect_head
  connect_head-Keeps HeadRead.too_large = send_http_error-Keeps _ _
  connect_head-Keeps (HeadRead.head buf) = search (policed_rules, connect_request-Keeps) depth 9

  handle_https_connect-Keeps :
      Keeps IsPoliced (handle_https_connect to_lowercase contains around policy)
  unfolding handle_https_connect
  handle_https_connect-Keeps = search (policed_rules, connect_head-Keeps) depth 9

  handle_connection-Keeps : Keeps IsPoliced (handle_connection to_lowercase contains around policy)
  unfolding handle_connection
  handle_connection-Keeps =
      search (policed_rules, handle_https_connect-Keeps, handle_plain_http-Keeps) depth 9

  -- On a connection that has no upstream yet, whatever the client sends and whatever fails, an
  -- upstream connection is opened only to a domain, at some port, that the policy does not deny.
  pub handle_connection-permitted :
      (c : Conversation) (u : Upstream)
      → c.upstream ≡ none
      → (handle_connection to_lowercase contains around policy c).1.upstream ≡ some u
      → (domain : Text) × (port : ℕ) × (u.address ≡ domain ++ codes ":" ++ decimal port)
        × (decide to_lowercase contains around policy domain ≢ PolicyDecision.deny)
  handle_connection-permitted c u fresh opened =
      subst PermittedUpstream opened
        (handle_connection-Keeps.after c (subst PermittedUpstream (sym fresh) tt))
