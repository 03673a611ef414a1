-- ===== src/Network/Proxy/Ports.antt =====
-- `extract_port` of crates/rustbox-network/src/proxy.rs.
use rustbox.Prelude.{
  ℕ, zero, suc, ◌+◌, ◌*◌, ◌-◌, ◌<◌, ◌/◌, ◌%◌, Text, [], ◌∷◌, ◌++◌, none, some, ◌≡◌, refl, sym, ap,
  ◌∙◌, inl, inr, arith, Bool-cases, ltb, codes, All, All-append, append_assoc, append-nil, subst,
  ◌≤◌,
}
use rustbox.Network.Proxy.Request.{
  after_last_colon, parse_digits, parse_u16, extract_port, decimal_within, decimal,
}

-- What a decimal number looks like.
IsDigits : Text → Type 0
IsDigits s = All (λ b. (48 ≤ b) × (b < 58)) s

decimal_within-IsDigits : (fuel n : ℕ) → IsDigits (decimal_within fuel n)
unfolding decimal_within IsDigits
decimal_within-IsDigits zero n = tt
decimal_within-IsDigits (suc fuel) n = elim (Bool-cases (ltb n 10)) [
  | inl e ↦ rw (e, decimal_within) ((omega arith, ground arith), tt)
  | inr e ↦
      rw (e, decimal_within)
        (All-append _ (decimal_within fuel (n / 10)) _ (decimal_within-IsDigits fuel (n / 10))
          ((omega arith, omega arith), tt))
]

-- Digits hold no colon.
after_last_colon-IsDigits : (s : Text) → IsDigits s → after_last_colon s ≡ none
unfolding after_last_colon IsDigits
after_last_colon-IsDigits [] h = refl
after_last_colon-IsDigits (b ∷ s) (hb, hs) = ground (arith, after_last_colon-IsDigits s hs, hb)

after_last_colon-append :
    (name port : Text) → IsDigits port → after_last_colon (name ++ codes ":" ++ port) ≡ some port
unfolding after_last_colon
after_last_colon-append [] port h = rw (after_last_colon-IsDigits port h) refl
after_last_colon-append (b ∷ name) port h = rw (after_last_colon-append name port h) refl

parse_digits-digit :
    (m d : ℕ) (rest : Text)
    → d < 10
    → m * 10 + d ≤ 65535
    → parse_digits m ((48 + d) ∷ rest) ≡ parse_digits (m * 10 + d) rest
unfolding parse_digits
parse_digits-digit m d rest small bound =
    let same : 48 + d - 48 ≡ d = omega arith in rw (parse_digits, same) (ground arith)

-- The digits of a number read back, before others.
parse_digits-decimal :
    (fuel n : ℕ) (rest : Text)
    → n < fuel
    → n < 65536
    → parse_digits 0 (decimal_within fuel n ++ rest) ≡ parse_digits n rest
unfolding parse_digits decimal_within
parse_digits-decimal zero n rest h bound = absurd (omega arith)
parse_digits-decimal (suc fuel) n rest h bound = elim (Bool-cases (ltb n 10)) [
  | inl e ↦ rw (e, decimal_within) (ground arith)
  | inr e ↦
      let large : 10 ≤ n = ground arith in
      rw (e, decimal_within)
        (ap (parse_digits 0) (append_assoc (decimal_within fuel (n / 10)) _ rest)
          ∙ parse_digits-decimal fuel (n / 10) ((48 + n % 10) ∷ rest) (omega arith) (omega arith)
          ∙ parse_digits-digit (n / 10) (n % 10) rest (omega arith) (omega arith)
          ∙ ap (λ m. parse_digits m rest) (omega arith))
]

parse_u16-IsDigits :
    (s : Text) (b : ℕ)
    → IsDigits (s ++ b ∷ [])
    → parse_u16 (s ++ b ∷ []) ≡ parse_digits 0 (s ++ b ∷ [])
unfolding parse_u16 IsDigits
parse_u16-IsDigits [] b h = refl
parse_u16-IsDigits (a ∷ []) b (ha, h) = ground (arith, ha)
parse_u16-IsDigits (a ∷ c ∷ s) b (ha, h) = ground (arith, ha)

-- A number has a last digit.
decimal_last : (n : ℕ) → (s : Text) × (b : ℕ) × (decimal n ≡ s ++ b ∷ [])
unfolding decimal
decimal_last n = elim (Bool-cases (ltb n 10)) [
  | inl e ↦ ([], 48 + n, rw (e, decimal_within) refl)
  | inr e ↦ (decimal_within n (n / 10), 48 + n % 10, rw (e, decimal_within) refl)
]

parse_u16-decimal : (n : ℕ) → n < 65536 → parse_u16 (decimal n) ≡ some n
unfolding decimal parse_digits
parse_u16-decimal n h =
    let (s, b, same) = decimal_last n in
    let digits : IsDigits (decimal n) = decimal_within-IsDigits (suc n) n in
    let read : parse_digits 0 (decimal n) ≡ some n =
      ap (parse_digits 0) (sym (append-nil (decimal n)))
      ∙ parse_digits-decimal (suc n) n [] (omega arith) h in
    ap parse_u16 same
    ∙ parse_u16-IsDigits s b (subst (λ t. IsDigits t) same digits)
    ∙ sym (ap (parse_digits 0) same)
    ∙ read

-- A port below 65536 that is written in decimal behind the last colon of an authority is the one that
-- is read from it.
pub extract_port-decimal :
    (name : Text) (port default : ℕ)
    → port < 65536
    → extract_port (name ++ codes ":" ++ decimal port) default ≡ port
unfolding extract_port decimal
extract_port-decimal name port default h =
    let digits : IsDigits (decimal port) = decimal_within-IsDigits (suc port) port in
    rw (extract_port, after_last_colon-append name (decimal port) digits, parse_u16-decimal port h)
      refl
