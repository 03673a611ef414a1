-- ===== src/Network/Proxy/Relay.antt =====
-- The relay of crates/rustbox-network/src/proxy.rs between a client and its upstream.
use rustbox.Prelude.{
  ℕ, Text, List, [], ◌∷◌, ◌++◌, append_assoc, append-nil, false, none, some, ok, ◌≡◌, sym, ap, ap₂,
  ◌∙◌, is_empty, All,
}
use rustbox.Wire.Stream.{Writer, write_all, flush}
use rustbox.Network.Proxy.Conversation.{Chunks, Upstream, Conversation, copy, join_copies, relay}
use rustbox.Network.Proxy.Reading.{concat}

-- The writer has taken a part of these bytes, from the front, and nothing else.
abbrev pub TakesPart : List ℕ → Writer → Writer → Type 0
TakesPart bytes w w' = (rest : List ℕ) × (w'.written ++ rest ≡ w.written ++ bytes)

-- A writer on which nothing fails, with what was written to it.
abbrev pub open_writer : List ℕ → Writer
open_writer written = record { written = written; fault = none; flush_fault = none }

-- Reads that deliver bytes, and the end of the stream.
abbrev pub whole : List (List ℕ) → Chunks
whole chunks = record { chunks = chunks; fault = none }

abbrev pub AreFilled : List (List ℕ) → Type 0
AreFilled chunks = All (λ chunk. is_empty chunk ≡ false) chunks

copy-whole :
    (chunks : List (List ℕ)) (old : List ℕ)
    → AreFilled chunks
    → copy chunks none (open_writer old) ≡ (ok tt, open_writer (old ++ concat chunks))
unfolding copy flush write_all
copy-whole [] old filled = ap (λ t. (ok tt, open_writer t)) (sym (append-nil old))
copy-whole (chunk ∷ chunks) old (filled, more) = rw filled (
    copy-whole chunks (old ++ chunk) more
    ∙ ap (λ t. (ok tt, open_writer t)) (append_assoc old chunk (concat chunks)))

-- Where nothing fails, a relay passes on all that the client still sends and all that the upstream
-- answers to it, in order, whatever the scheduler does.
pub relay-whole :
    (replies : Upstream → Chunks → Chunks) (turns : ℕ × ℕ) (address : Text) (up down : List ℕ)
    (sent answered : List (List ℕ))
    → replies (record { address = address; writer = open_writer up }) (whole sent) ≡ whole answered
    → AreFilled sent
    → AreFilled answered
    → relay replies turns (record {
      incoming = whole sent;
      client = open_writer down;
      upstream = some (record { address = address; writer = open_writer up });
    })
      ≡ (
        ok tt,
        record {
          incoming = whole [];
          client = open_writer (down ++ concat answered);
          upstream = some (record { address = address; writer = open_writer (up ++ concat sent) });
        },
      )
unfolding relay join_copies
relay-whole replies turns address up down sent answered answers filled filled' =
    let joined : join_copies (whole sent) (whole answered) turns (open_writer up) (open_writer down)
        ≡ (open_writer (up ++ concat sent), open_writer (down ++ concat answered)) =
      rw (join_copies, copy-whole sent up filled, copy-whole answered down filled')
        (ap₂ (λ a b. (a, b)) (ap (λ p. p.1) (copy-whole sent up filled))
          (ap (λ p. p.1) (copy-whole answered down filled'))) in
    ap
      (λ (w : Writer × Writer). (
        ok tt,
        record {
          incoming = whole [];
          client = w.1;
          upstream = some (record { address = address; writer = w.0 });
        },
      ))
      (ap (λ r. join_copies (whole sent) r turns (open_writer up) (open_writer down)) answers
        ∙ joined)
