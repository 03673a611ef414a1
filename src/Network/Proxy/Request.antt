-- ===== src/Network/Proxy/Request.antt =====
-- Texts of requests and responses in crates/rustbox-network/src/proxy.rs. A request is what
-- `httparse` reads of one, with the values of its headers as bytes.
use rustbox.Prelude.{
  ℕ, zero, suc, ◌+◌, ◌-◌, ◌*◌, ◌/◌, ◌%◌, Text, codes, List, [], ◌∷◌, ◌++◌, Bool, true, false,
  Option, none, some, Result, ok, err, ◌==◌, leb, ltb, ◌&&◌, if◌then◌else◌, take, drop, length,
  starts_with,
}
use rustbox.Prelude.Dict.{Dict}

-- The `io::Error`s of the proxy: those of the kind `InvalidData`, and others.
pub data ProxyError : Type 0 where
  invalid_data other : Text → ProxyError

pub record Request : Type 0 where
  pub path : Option Text
  pub headers : List (Text × List ℕ)

abbrev pub crlf : Text
crlf = 13 ∷ 10 ∷ []

abbrev pub header_terminator : Text
header_terminator = 13 ∷ 10 ∷ 13 ∷ 10 ∷ []

-- `windows(4).position(|w| w == b"\r\n\r\n")`
unfoldable pub header_end : List ℕ → Option ℕ
unfolding starts_with
header_end [] = none
header_end (b ∷ bs) =
    if starts_with header_terminator (b ∷ bs)
    then some 0
    else elim (header_end bs) [ none ↦ none | some n ↦ some (suc n) ]

-- The lines that the loop over the headers appends.
unfoldable pub header_lines : Dict Text → List ℕ
header_lines [] = []
header_lines ((key, value) ∷ headers) = key ++ codes ": " ++ value ++ crlf ++ header_lines headers

unfoldable pub inject_headers : List ℕ → Dict Text → Result ProxyError (List ℕ)
unfolding header_end
inject_headers request [] = ok request
inject_headers request (h ∷ headers) = elim (header_end request) [
  | none ↦ err (ProxyError.invalid_data (codes "no header terminator"))
  | some n ↦ ok (take (n + 2) request ++ header_lines (h ∷ headers) ++ drop (n + 2) request)
]

-- `to_ascii_lowercase` of a byte
abbrev ascii_lower : ℕ → ℕ
ascii_lower b = if leb 65 b && leb b 90 then b + 32 else b

-- `eq_ignore_ascii_case`
abbrev pub eq_ignore_ascii_case : Text → Text → Bool
eq_ignore_ascii_case [] [] = true
eq_ignore_ascii_case (a ∷ s) (b ∷ t) = ascii_lower a == ascii_lower b && eq_ignore_ascii_case s t
eq_ignore_ascii_case [] (b ∷ t) = false
eq_ignore_ascii_case (a ∷ s) [] = false

-- The loop over the headers; `is_utf8` stands for the test in `str::from_utf8`.
abbrev pub extract_host : (List ℕ → Bool) → List (Text × List ℕ) → Option Text
extract_host is_utf8 [] = none
extract_host is_utf8 ((name, value) ∷ headers) =
    if eq_ignore_ascii_case name (codes "host")
    then if is_utf8 value then some value else none
    else extract_host is_utf8 headers

-- `split(':').next()`
unfoldable pub domain_of : Text → Text
domain_of [] = []
domain_of (b ∷ bs) = if b == 58 then [] else b ∷ domain_of bs

-- What follows the last colon, as in `rsplit_once(':')`.
unfoldable pub after_last_colon : Text → Option Text
after_last_colon [] = none
after_last_colon (b ∷ bs) = elim (after_last_colon bs) [
  | some t ↦ some t
  | none ↦ if b == 58 then some bs else none
]

abbrev pub is_digit : ℕ → Bool
is_digit b = leb 48 b && leb b 57

-- The digits of a `u16`, read after others of the value `n`.
unfoldable pub parse_digits : ℕ → Text → Option ℕ
parse_digits n [] = some n
parse_digits n (b ∷ bs) =
    if is_digit b && leb (n * 10 + (b - 48)) 65535
    then parse_digits (n * 10 + (b - 48)) bs
    else none

-- `parse::<u16>()`, which takes a plus sign and refuses the empty text
unfoldable pub parse_u16 : Text → Option ℕ
parse_u16 [] = none
parse_u16 (b ∷ []) = parse_digits 0 (b ∷ [])
parse_u16 (b ∷ c ∷ bs) = if b == 43 then parse_digits 0 (c ∷ bs) else parse_digits 0 (b ∷ c ∷ bs)

port_or : ℕ → Option ℕ → ℕ
port_or default none = default
port_or default (some p) = p

unfoldable pub extract_port : Text → ℕ → ℕ
unfolding after_last_colon parse_u16 port_or
extract_port host default =
    port_or default (elim (after_last_colon host) [ none ↦ none | some p ↦ parse_u16 p ])

-- A number in decimal digits. The fuel bounds the number of digits.
unfoldable pub decimal_within : ℕ → ℕ → Text
decimal_within zero n = []
decimal_within (suc fuel) n = elim (ltb n 10) [
  | true ↦ (48 + n) ∷ []
  | false ↦ decimal_within fuel (n / 10) ++ (48 + n % 10) ∷ []
]

-- The display of an unsigned number: it has no more digits than its value and one.
unfoldable pub decimal : ℕ → Text
unfolding decimal_within
decimal n = decimal_within (suc n) n

abbrev reason_of : ℕ → Text
reason_of status =
    if status == 400
    then codes "Bad Request"
    else if status == 403
    then codes "Forbidden"
    else if status == 431
    then codes "Request Header Fields Too Large"
    else if status == 502
    then codes "Bad Gateway"
    else codes "Error"

unfoldable pub http_error : ℕ → Text → Text
unfolding decimal
http_error status message =
    let body =
      codes "<html><body><h1>"
      ++ decimal status
      ++ codes " "
      ++ reason_of status
      ++ codes "</h1><p>"
      ++ message
      ++ codes "</p></body></html>" in
    codes "HTTP/1.1 "
    ++ decimal status
    ++ codes " "
    ++ reason_of status
    ++ crlf
    ++ codes "Content-Type: text/html"
    ++ crlf
    ++ codes "Content-Length: "
    ++ decimal (length body)
    ++ crlf
    ++ codes "Connection: close"
    ++ header_terminator
    ++ body
