-- ===== src/Examples/Proxy.antt =====
-- crates/rustbox-network/src/proxy.rs on a concrete request. The parser is a function that knows
-- this request, and every domain has the address 8.0.0.1.
use rustbox.Prelude.{
  ℕ, ◌+◌, ◌*◌, ◌^◌, ◌≤◌, ◌≢◌, Text, codes, [], ◌∷◌, ◌++◌, true, none, some, ok, ◌≡◌, refl, arith,
  take, drop, length,
}
use rustbox.Core.Network.{NetworkPolicy}
use rustbox.Network.Policy.{PolicyDecision, evaluate_connection}
use rustbox.Network.Proxy.Request.{
  Request, crlf, header_terminator, header_end, header_lines, inject_headers, extract_port, decimal,
  domain_of, parse_digits,
}
use rustbox.Core.Network.{NetworkMode}
use rustbox.Network.Policy.{should_allow_ip}
use rustbox.Network.Proxy.{needs_domain_proxy}
use rustbox.Network.Proxy.Ports.{extract_port-decimal}
use rustbox.Network.Proxy.Need.{by_address, needs_domain_proxy-address}
use rustbox.Network.Proxy.HeaderEnd.{IsPlain-any}
use rustbox.Network.Proxy.Injection.{IsExtended, inject_headers-head}
use rustbox.Network.Proxy.Conversation.{
  Conversation, Upstream, Surroundings, read_head, read_until_headers_end, relay,
}
use rustbox.Network.Proxy.Handler.{decide, handle_plain_http, handle_connection}
use rustbox.Network.Proxy.Reading.{concat, read_head_lem}
use rustbox.Network.Proxy.Handler.Policing.{handle_connection-permitted}
use rustbox.Network.Proxy.Relay.{whole, open_writer, relay-whole}
use rustbox.Wire.Stream.{Writer, write_all, flush}
use rustbox.Network.Domain.{domain_matches}
use rustbox.Examples.Network.{ascii_lowercase, contains, rule, policy}

abbrev host : Text
host = codes "api.example.com:8080"

abbrev front : Text
front = codes "GET / HTTP/1.1" ++ crlf ++ codes "Host: " ++ host

abbrev buf : Text
buf = front ++ header_terminator ++ codes "body"

abbrev request : Request
request = record { path = some (codes "/"); headers = (codes "HOST", host) ∷ [] }

abbrev writer : Writer
writer = record { written = []; fault = none; flush_fault = none }

abbrev around : Surroundings ℕ
around = record {
  resolve_domain = λ domain. some (8 * 2 ^ 24 + 1);
  parse = λ bytes. ok request;
  is_utf8 = λ bytes. true;
  connect = λ address. ok writer;
  accept_tls = λ domain. ok (record { chunks = buf ∷ []; fault = none });
  connect_tls = λ domain. ok tt;
  replies = λ u sent. record { chunks = codes "HTTP/1.1 200 OK" ∷ []; fault = none };
  turns = (0, 0);
}

abbrev conversation : Conversation
conversation = record {
  incoming = record { chunks = take 20 buf ∷ drop 20 buf ∷ []; fault = none };
  client = writer;
  upstream = none;
}

-- The policy without its rule.
abbrev strict : NetworkPolicy ℕ
strict = record policy { transform_rules = [] }

abbrev sent : Text
sent = front ++ crlf ++ codes "Authorization: Bearer tok" ++ header_terminator ++ codes "body"

abbrev address : Text
address = codes "api.example.com:8080"

inject_headers-head_example :
    (out : Text) × (inject_headers buf rule.headers ≡ ok out)
    × IsExtended (codes "Authorization", codes "Bearer tok") [] buf (length front) out
unfolding header_end
inject_headers-head_example =
    inject_headers-head (codes "Authorization", codes "Bearer tok") [] buf (length front)
      ((IsPlain-any (codes "Authorization") refl, IsPlain-any (codes "Bearer tok") refl), tt) refl

read_head_lem_example :
    (length buf ≤ 69632)
    × (buf ++ concat (read_head [] (take 20 buf ∷ drop 20 buf ∷ []) none).1.chunks
        ≡ concat (take 20 buf ∷ drop 20 buf ∷ []))
unfolding read_head header_end
read_head_lem_example =
    read_head_lem (take 20 buf ∷ drop 20 buf ∷ []) none buf (omega arith, (omega arith, tt)) refl

abbrev upstream : Upstream
upstream = record { address = address; writer = record writer { written = sent } }

handle_connection-permitted_example :
    (domain : Text) × (port : ℕ) × (address ≡ domain ++ codes ":" ++ decimal port)
    × (decide ascii_lowercase contains around policy domain ≢ PolicyDecision.deny)
unfolding handle_connection handle_plain_http read_until_headers_end decide decimal extract_port
    domain_of inject_headers header_lines evaluate_connection domain_matches write_all flush
    parse_digits
handle_connection-permitted_example =
    handle_connection-permitted ascii_lowercase contains around policy conversation upstream refl
      refl

-- The client's side fails after three bytes, in front of which the upstream gets the first read.
abbrev failing : Conversation
failing = record conversation {
  client = record { written = []; fault = some (3, codes "reset"); flush_fault = none };
  upstream = some (record upstream { writer = open_writer [] });
}

relay-whole_example :
    relay around.replies
      (0, 0)
      (record {
        incoming = whole (codes "a" ∷ codes "b" ∷ []);
        client = open_writer [];
        upstream = some (record { address = address; writer = open_writer sent });
      })
    ≡ (
      ok tt,
      record {
        incoming = whole [];
        client = open_writer (codes "HTTP/1.1 200 OK");
        upstream = some (record { address = address; writer = open_writer (sent ++ codes "ab") });
      },
    )
relay-whole_example =
    relay-whole around.replies (0, 0) address sent [] (codes "a" ∷ codes "b" ∷ [])
      (codes "HTTP/1.1 200 OK" ∷ []) refl (refl, (refl, tt)) (refl, tt)

needs_domain_proxy-address_example :
    evaluate_connection ascii_lowercase contains
      (record strict { allow_domains = [] })
      (codes "x.y")
      (8 * 2 ^ 24)
    ≡ by_address NetworkMode.deny_all
        (should_allow_ip contains (record strict { allow_domains = [] }) (8 * 2 ^ 24))
unfolding needs_domain_proxy
needs_domain_proxy-address_example =
    needs_domain_proxy-address ascii_lowercase contains (record strict { allow_domains = [] })
      (codes "x.y") (8 * 2 ^ 24) refl

extract_port-decimal_example : extract_port (codes "a.b" ++ codes ":" ++ decimal 8080) 443 ≡ 8080
extract_port-decimal_example = extract_port-decimal (codes "a.b") 8080 443 (omega arith)
