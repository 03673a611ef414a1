-- ===== src/Network/Proxy/Reading.antt =====
-- `read_until_headers_end` of crates/rustbox-network/src/proxy.rs.
use rustbox.Prelude.{
  ℕ, ◌+◌, ◌≤◌, Text, List, [], ◌∷◌, ◌++◌, Option, none, some, ok, ◌≡◌, ◌∙◌, inl, inr, arith, length,
  All, Bool-cases, append_assoc, append-nil, length-append, is_empty, ltb,
}
use rustbox.Network.Proxy.Conversation.{
  Chunks, HeadRead, read_head, max_header_size, has_headers_end,
}

-- All bytes that the reads deliver.
abbrev pub concat : List (List ℕ) → List ℕ
concat [] = []
concat (chunk ∷ chunks) = chunk ++ concat chunks

-- What is left of the stream.
abbrev pub IsRest : List ℕ → List ℕ → Chunks → Type 0
IsRest all buf rest = buf ++ concat rest.chunks ≡ all

head_lem :
    (buf : List ℕ) (chunks : List (List ℕ)) (fault : Option Text) (head : List ℕ)
    → All (λ chunk. length chunk ≤ 4096) chunks
    → length buf ≤ 65536
    → (read_head buf chunks fault).0 ≡ ok (HeadRead.head head)
    → (length head ≤ 65536 + 4096)
      × (head ++ concat (read_head buf chunks fault).1.chunks ≡ buf ++ concat chunks)
unfolding read_head
head_lem buf [] none head h bound e = (ground arith, ground arith)
head_lem buf [] (some fault) head h bound e = absurd (ground arith)
head_lem buf (chunk ∷ chunks) fault head (small, h) bound e =
    let same = length-append buf chunk in
    let regrouped = append_assoc buf chunk (concat chunks) in
    let kept = append-nil buf in
    elim (Bool-cases (is_empty chunk)) [
      | inl empty ↦
          let nothing : chunk ≡ [] = ground (arith, empty) in ground (arith, empty, nothing)
      | inr more ↦ elim (Bool-cases (has_headers_end (buf ++ chunk))) [
        | inl found ↦ ground (arith, more, found, same, regrouped)
        | inr open_head ↦ elim (Bool-cases (ltb max_header_size (length (buf ++ chunk)))) [
          | inl large ↦ absurd (ground (arith, more, open_head, large, e))
          | inr fits ↦
              let ih =
                head_lem (buf ++ chunk) chunks fault head h (ground arith)
                  (ground (arith, more, open_head, fits, e)) in
              rw (more, open_head, fits) (ih.0, ih.1 ∙ regrouped)
        ]
      ]
    ]

-- If no read delivers more than 4096 bytes, the head that is read holds at most 69632, and it and
-- what is left of the stream are together what the stream held.
pub read_head_lem :
    (chunks : List (List ℕ)) (fault : Option Text) (head : List ℕ)
    → All (λ chunk. length chunk ≤ 4096) chunks
    → (read_head [] chunks fault).0 ≡ ok (HeadRead.head head)
    → (length head ≤ 69632) × (head ++ concat (read_head [] chunks fault).1.chunks ≡ concat chunks)
read_head_lem chunks fault head h e = head_lem [] chunks fault head h (omega arith) e
