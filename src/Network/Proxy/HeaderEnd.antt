-- ===== src/Network/Proxy/HeaderEnd.antt =====
-- Where the head of a request ends, as crates/rustbox-network/src/proxy.rs searches for it.
use rustbox.Prelude.{
  any, ◌==◌, codes, ℕ, suc, ◌+◌, Text, [], ◌∷◌, ◌++◌, true, false, some, ◌≡◌, ◌≢◌, refl, ap, inl,
  inr, arith, All, All-append, length-append, length, starts_with, Bool-cases, Option-cases,
  append_assoc,
}
use rustbox.Prelude.Dict.{Dict}
use rustbox.Network.Proxy.Request.{header_end, header_lines, header_terminator, crlf}

-- A text that starts with the terminator.
rest_of_terminator :
    (s : Text)
    → starts_with header_terminator s ≡ true
    → (body : Text) × (s ≡ header_terminator ++ body)
unfolding starts_with
rest_of_terminator (a ∷ b ∷ c ∷ d ∷ body) h = (body, ground arith)
rest_of_terminator [] h = absurd (ground arith)
rest_of_terminator (a ∷ []) h = absurd (ground arith)
rest_of_terminator (a ∷ b ∷ []) h = absurd (ground arith)
rest_of_terminator (a ∷ b ∷ c ∷ []) h = absurd (ground arith)

-- Where a head ends: the terminator follows.
abbrev pub EndsAt : Text → ℕ → Type 0
EndsAt r n =
    (head : Text) × (body : Text) × (length head ≡ n) × (r ≡ head ++ header_terminator ++ body)

pub header_end-EndsAt : (r : Text) (n : ℕ) → header_end r ≡ some n → EndsAt r n
unfolding header_end
header_end-EndsAt [] n h = absurd (ground arith)
header_end-EndsAt (b ∷ bs) n h = elim (Bool-cases (starts_with header_terminator (b ∷ bs))) [
  | inl e ↦ let (body, same) = rest_of_terminator (b ∷ bs) e in ([], body, ground arith, same)
  | inr e ↦ elim (Option-cases (header_end bs)) [
    | inl none_found ↦ absurd (ground arith)
    | inr (m, found) ↦
        let (head, body, size, same) = header_end-EndsAt bs m found in
        (b ∷ head, body, ground arith, ap (λ t. b ∷ t) same)
  ]
]

-- A match after the first line break, where no terminator begins.
header_end-crlf :
    (y : ℕ) (z : Text) (k : ℕ)
    → y ≢ 13
    → header_end (y ∷ z) ≡ some k
    → header_end (13 ∷ 10 ∷ y ∷ z) ≡ some (k + 2)
unfolding header_end starts_with
header_end-crlf y z k different h = ground (arith, h)

-- Text without a carriage return holds no part of the terminator.
header_end-append :
    (s rest : Text) (k : ℕ)
    → All (λ b. b ≢ 13) s
    → header_end rest ≡ some k
    → header_end (s ++ rest) ≡ some (length s + k)
unfolding header_end starts_with
header_end-append [] rest k hs h = ground (arith, h)
header_end-append (b ∷ s) rest k (hb, hs) h = ground (arith, header_end-append s rest k hs h)

-- One step of the search that goes on.
header_end-step :
    (b : ℕ) (bs : Text) (n : ℕ)
    → header_end (b ∷ bs) ≡ some (suc n)
    → (starts_with header_terminator (b ∷ bs) ≡ false) × (header_end bs ≡ some n)
unfolding header_end
header_end-step b bs n h = elim (Bool-cases (starts_with header_terminator (b ∷ bs))) [
  | inl e ↦ absurd (ground (arith, e, h))
  | inr e ↦ (e, ground (arith, e, h))
]

header_end-skip :
    (b : ℕ) (bs : Text) (n : ℕ)
    → starts_with header_terminator (b ∷ bs) ≡ false
    → header_end bs ≡ some n
    → header_end (b ∷ bs) ≡ some (suc n)
unfolding header_end
header_end-skip b bs n e h = ground (arith, e, h)

-- The search passes a head that held no terminator, whatever follows the head's last line break.
pub header_end-past :
    (head body : Text) (t : Text) (k : ℕ)
    → header_end (head ++ header_terminator ++ body) ≡ some (length head)
    → header_end (13 ∷ 10 ∷ t) ≡ some k
    → header_end (head ++ 13 ∷ 10 ∷ t) ≡ some (length head + k)
unfolding header_end starts_with
header_end-past [] body t k first h = ground (arith, h)
header_end-past (a ∷ []) body t k first h = ground (arith, h, first)
header_end-past (a ∷ b ∷ []) body t k first h =
    ground (arith, header_end-past (b ∷ []) body t k (ground (arith, first)) h)
header_end-past (a ∷ b ∷ c ∷ []) body t k first h =
    ground (arith, header_end-past (b ∷ c ∷ []) body t k (ground (arith, first)) h)
header_end-past (a ∷ b ∷ c ∷ d ∷ head) body t k first h =
    let (no_match, first') =
      header_end-step a (b ∷ c ∷ d ∷ head ++ header_terminator ++ body) (length (b ∷ c ∷ d ∷ head))
        first in
    ground (
      arith,
      header_end-skip a (b ∷ c ∷ d ∷ head ++ 13 ∷ 10 ∷ t) (length (b ∷ c ∷ d ∷ head) + k) no_match
          (header_end-past (b ∷ c ∷ d ∷ head) body t k first' h),
    )

-- The lines that are put in and what follows them: no header text holds a carriage return.
abbrev pub IsPlain : Text → Type 0
IsPlain s = All (λ b. b ≢ 13) s

abbrev pub ArePlain : Dict Text → Type 0
ArePlain headers = All (λ h. IsPlain h.0 × IsPlain h.1) headers

-- A text is plain if a search finds no carriage return.
pub IsPlain-any : (s : Text) → any (λ b. b == 13) s ≡ false → IsPlain s
IsPlain-any [] h = tt
IsPlain-any (b ∷ s) h = ((λ e. absurd (ground (arith, e, h))), IsPlain-any s (ground (arith, h)))

header_end-now : (body : Text) → header_end (crlf ++ crlf ++ body) ≡ some 0
unfolding header_end starts_with
header_end-now body = refl

pub regroup : (a b c d e : Text) → a ++ b ++ c ++ d ++ e ≡ a ++ (b ++ c ++ d ++ e)
regroup a b c d e = simp append_assoc

-- The first line of those that are put in, after a line break.
header_end-line :
    (key value rest : Text) (k : ℕ)
    → IsPlain key
    → IsPlain value
    → header_end rest ≡ some k
    → header_end (13 ∷ 10 ∷ key ++ codes ": " ++ value ++ rest)
      ≡ some (length (key ++ codes ": " ++ value) + 2 + k)
header_end-line [] value rest k plain_key plain_value h =
    let plain : IsPlain (58 ∷ 32 ∷ value) = (ground arith, (ground arith, plain_value)) in
    let found = header_end-append (58 ∷ 32 ∷ value) rest k plain h in
    ground (
      arith,
      header_end-crlf 58 (32 ∷ value ++ rest) (length (58 ∷ 32 ∷ value) + k) (ground arith) found,
    )
header_end-line (y ∷ key) value rest k (plain_y, plain_key) plain_value h =
    let line : Text = key ++ codes ": " ++ value in
    let plain : IsPlain (y ∷ line) = (
      plain_y,
      All-append _ (key ++ codes ": ") value
          (All-append _ key (codes ": ") plain_key (ground arith, (ground arith, tt))) plain_value,
    ) in
    let found = header_end-append (y ∷ line) rest k plain h in
    ground (arith, header_end-crlf y (line ++ rest) (length (y ∷ line) + k) plain_y found)

pub header_end-lines :
    (headers : Dict Text) (body : Text)
    → ArePlain headers
    → header_end (crlf ++ header_lines headers ++ crlf ++ body)
      ≡ some (length (header_lines headers))
unfolding header_lines
header_end-lines [] body h = header_end-now body
header_end-lines ((key, value) ∷ headers) body ((plain_key, plain_value), h) =
    let line : Text = key ++ codes ": " ++ value in
    let rest : Text = crlf ++ header_lines headers ++ crlf ++ body in
    let found =
      header_end-line key value rest (length (header_lines headers)) plain_key plain_value
        (header_end-lines headers body h) in
    rw
      (
        regroup line crlf (header_lines headers) crlf body,
        length-append (line ++ crlf) (header_lines headers),
        length-append line crlf,
      )
      found
