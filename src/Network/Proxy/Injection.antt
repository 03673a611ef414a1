-- ===== src/Network/Proxy/Injection.antt =====
-- `inject_headers` of crates/rustbox-network/src/proxy.rs.
use rustbox.Prelude.{
  ℕ, suc, codes, ◌+◌, Text, [], ◌∷◌, ◌++◌, some, ok, ◌≡◌, refl, sym, ap, ◌∙◌, arith, length, take,
  drop, append_assoc, map, subst,
}
use rustbox.Prelude.Dict.{Dict}
use rustbox.Network.Proxy.Request.{
  header_end, header_lines, inject_headers, header_terminator, crlf,
}
use rustbox.Network.Proxy.Reading.{concat}
use rustbox.Network.Proxy.HeaderEnd.{
  ArePlain, header_end-EndsAt, header_end-lines, header_end-past, regroup,
}

take-through :
    (head : Text) (a b : ℕ) (rest : Text)
    → take (suc (suc (length head))) (head ++ a ∷ b ∷ rest) ≡ head ++ a ∷ b ∷ []
take-through [] a b rest = refl
take-through (x ∷ head) a b rest = ap (λ t. x ∷ t) (take-through head a b rest)

drop-through :
    (head : Text) (a b : ℕ) (rest : Text)
    → drop (suc (suc (length head))) (head ++ a ∷ b ∷ rest) ≡ rest
drop-through [] a b rest = refl
drop-through (x ∷ head) a b rest = drop-through head a b rest

-- With headers to add, what goes out is the request with the lines put in before the empty line
-- that ends its head.
inject_headers-at :
    (h : Text × Text) (headers : Dict Text) (head body : Text)
    → header_end (head ++ header_terminator ++ body) ≡ some (length head)
    → inject_headers (head ++ header_terminator ++ body) (h ∷ headers)
      ≡ ok (head ++ crlf ++ header_lines (h ∷ headers) ++ crlf ++ body)
unfolding inject_headers
inject_headers-at h headers head body e =
    let same : head ++ header_terminator ++ body ≡ head ++ 13 ∷ 10 ∷ (crlf ++ body) =
      append_assoc head header_terminator body in
    let size : length head + 2 ≡ suc (suc (length head)) = omega arith in
    rw
      (
        e,
        inject_headers,
        size,
        same,
        take-through head 13 10 (crlf ++ body),
        drop-through head 13 10 (crlf ++ body),
      )
      (ap ok (sym (append_assoc (head ++ crlf ++ header_lines (h ∷ headers)) crlf body)))

-- One header as it stands in a request, and all of them.
abbrev pub line_of : Text × Text → Text
line_of (name, value) = name ++ codes ": " ++ value ++ crlf

abbrev pub lines_of : Dict Text → Text
lines_of headers = concat (map line_of headers)

header_lines_lem : (headers : Dict Text) → header_lines headers ≡ lines_of headers
unfolding header_lines
header_lines_lem [] = refl
header_lines_lem ((name, value) ∷ headers) =
    ap (λ t. line_of (name, value) ++ t) (header_lines_lem headers)

module _ (h : Text × Text) (headers : Dict Text) (request : Text) (n : ℕ) where
  -- The request that goes out: the lines stand between the head and the empty line that ends it.
  abbrev pub IsExtended : Text → Type 0
  IsExtended out =
      (head : Text) × (body : Text) × (length head ≡ n)
      × (request ≡ head ++ header_terminator ++ body)
      × (out ≡ head ++ crlf ++ lines_of (h ∷ headers) ++ crlf ++ body)
      × (header_end out ≡ some (n + length (lines_of (h ∷ headers))))

-- If no name and no value of the headers holds a carriage return, a request whose head is complete
-- goes out with one line for each header, in their order, its name, a colon and its value, in front
-- of the empty line that ends the head. What stood before and behind is unchanged, and the receiver
-- finds the end of the head behind the added lines.
pub inject_headers-head :
    (h : Text × Text) (headers : Dict Text) (request : Text) (n : ℕ)
    → ArePlain (h ∷ headers)
    → header_end request ≡ some n
    → (out : Text) × (inject_headers request (h ∷ headers) ≡ ok out)
      × IsExtended h headers request n out
inject_headers-head h headers request n plain e =
    let (head, body, size, same) = header_end-EndsAt request n e in
    let lines : Text = lines_of (h ∷ headers) in
    let printed : header_lines (h ∷ headers) ≡ lines = header_lines_lem (h ∷ headers) in
    let out : Text = head ++ crlf ++ lines ++ crlf ++ body in
    let e' : header_end (head ++ header_terminator ++ body) ≡ some (length head) = cc in
    let behind : header_end (crlf ++ (lines ++ crlf ++ body)) ≡ some (length lines) =
      subst (λ t. header_end (crlf ++ (t ++ crlf ++ body)) ≡ some (length t)) printed
        (header_end-lines (h ∷ headers) body plain) in
    (
      out,
      ap (λ r. inject_headers r (h ∷ headers)) same
          ∙ inject_headers-at h headers head body e'
          ∙ ap (λ t. ok (head ++ crlf ++ t ++ crlf ++ body)) printed,
      (
        head,
        body,
        size,
        same,
        refl,
        ap header_end (regroup head crlf lines crlf body)
            ∙ header_end-past head body (lines ++ crlf ++ body) (length lines) e' behind
            ∙ ap (λ m. some (m + length lines)) size,
      ),
    )
