-- ===== src/Vm/Firecracker/Http.antt =====
-- `request` of crates/rustbox-vm/src/firecracker/api.rs: HTTP on a socket of the host.
-- The host answers the bytes of a request; `serde_json` prints the bodies.
pub mod Ends
use rustbox.Prelude.{
  ℕ, zero, suc, ◌+◌, ◌*◌, ◌-◌, ◌^◌, Text, codes, List, [], ◌∷◌, ◌++◌, Bool, ◌&&◌, ◌==◌, Option,
  none, some, Result, ok, err, Exec, length, leb, ltb, is_empty, if◌then◌else◌, strip_prefix,
}
use rustbox.Prelude.Dict.{Dict}
use rustbox.Prelude.Whitespace.{trim, trim_end, split_whitespace}
use rustbox.Core.Error.{RustboxError}
use rustbox.Network.Proxy.Request.{is_digit, parse_u16, decimal}
use rustbox.Wire.Stream.{Reader, read_exact, io_text}

-- A value that `json!` makes, in an object whose values are plain.
pub data Value : Type 0 where
  string : Text → Value
  number : ℕ → Value
  bool : Bool → Value

-- What a connection to the socket does: it fails, the request cannot be written, or bytes come back.
pub data Exchange : Type 0 where
  not_connected not_written : Text → Exchange
  answered : Reader → Exchange

-- `json` is `serde_json::to_string`, `eof` the text of `UnexpectedEof`, `utf8` the error of
-- `read_line` on a line that is not UTF-8.
pub record Http (H : Type 0) : Type 0 where
  pub exchange : Text → Text → H → Exchange × H
  pub json : Dict Value → Result Text Text
  pub eof : Text
  pub utf8 : List ℕ → Result Text (Unit {0})
  pub from_utf8_lossy : List ℕ → Text

-- The bytes up to a line feed, with it, and what follows.
unfoldable pub split_line : List ℕ → Option (List ℕ × List ℕ)
split_line [] = none
split_line (b ∷ bs) =
    let rest = split_line bs in
    if b == 10
    then some (b ∷ [], bs)
    else elim rest [ none ↦ none | some (line, later) ↦ some (b ∷ line, later) ]

abbrev line_of : Option (List ℕ × List ℕ) → Reader → Result Text Text × Reader
line_of (some (line, later)) r = (ok line, record r { bytes = later })
line_of none r = elim r.fault [
  | none ↦ (ok r.bytes, record r { bytes = [] })
  | some e ↦ (err e, record r { bytes = [] })
]

-- `parse::<usize>()`
unfoldable pub usize_digits : ℕ → Text → Option ℕ
usize_digits n [] = some n
usize_digits n (b ∷ bs) =
    if is_digit b && ltb (n * 10 + (b - 48)) (2 ^ 64)
    then usize_digits (n * 10 + (b - 48)) bs
    else none

unfoldable pub parse_usize : Text → Option ℕ
unfolding usize_digits
parse_usize [] = none
parse_usize (b ∷ []) = usize_digits 0 (b ∷ [])
parse_usize (b ∷ c ∷ bs) = if b == 43 then usize_digits 0 (c ∷ bs) else usize_digits 0 (b ∷ c ∷ bs)

abbrev or_else : Option ℕ → ℕ → ℕ
or_else none n = n
or_else (some m) n = m

-- A header's value behind one spelling of its name.
unfoldable pub length_of : Text → Text → ℕ → ℕ
length_of name line so_far = elim (strip_prefix name line) [
  | none ↦ so_far
  | some val ↦ or_else (parse_usize (trim val)) so_far
]

abbrev second : List Text → Option Text
second (a ∷ b ∷ words) = some b
second _ = none

-- The number in the status line.
unfoldable pub status_of : Text → Option ℕ
status_of line = elim (second (split_whitespace line)) [ none ↦ none | some word ↦ parse_u16 word ]

unfoldable pub request_text : Text → Text → Option Text → Text
request_text method path (some body) =
    method
    ++ codes " "
    ++ path
    ++ codes " HTTP/1.1\r\nHost: localhost\r\nContent-Type: application/json\r\nContent-Length: "
    ++ decimal (length body)
    ++ codes "\r\nAccept: application/json\r\nConnection: close\r\n\r\n"
    ++ body
request_text method path none =
    method
    ++ codes " "
    ++ path
    ++ codes " HTTP/1.1\r\nHost: localhost\r\nAccept: application/json\r\nConnection: close\r\n\r\n"

module _ {H : Type 0} (http : Http H) where
  -- `read_line`: up to the line feed or the end of the stream.
  unfoldable pub read_line : Reader → Result Text Text × Reader
  unfolding split_line
  read_line r =
      let (line, r') = line_of (split_line r.bytes) r in
      elim line [
        | err e ↦ (err e, r')
        | ok bytes ↦ elim (http.utf8 bytes) [ err e ↦ (err e, r') | ok _ ↦ (ok bytes, r') ]
      ]

  -- The loop over the header lines, with the content length so far. Each line that is not blank
  -- takes a byte, so the length of the stream bounds the rounds.
  unfoldable pub read_headers : ℕ → ℕ → Reader → Option (Result Text ℕ) × Reader
  read_headers zero len r = (none, r)
  read_headers (suc fuel) len r =
      let (line, r') = read_line r in
      elim line [
        | err e ↦ (some (err e), r')
        | ok bytes ↦
            let trimmed = trim bytes in
            let len' = length_of (codes "Content-Length:") trimmed len in
            let next = read_headers fuel (length_of (codes "content-length:") trimmed len') r' in
            if is_empty trimmed then (some (ok len), r') else next
      ]

  -- The body of the length that the headers gave.
  unfoldable pub read_body : ℕ → Reader → Result Text Text
  read_body len r = elim (read_exact len r).0 [
    | err e ↦ err (io_text http.eof e)
    | ok bytes ↦ ok (http.from_utf8_lossy bytes)
  ]

  api_error : Text → Text → ℕ → Text → RustboxError
  api_error method path status body = RustboxError.vm_backend (
      codes "Firecracker API "
      ++ method
      ++ codes " "
      ++ path
      ++ codes " returned "
      ++ decimal status
      ++ codes ": "
      ++ body)

  -- The response behind the status line; `none` is the end of the fuel.
  unfoldable pub read_response : Text → Text → Reader → Option (Result RustboxError (ℕ × Text))
  unfolding read_line read_body api_error
  read_response method path r =
      let (line, r') = read_line r in
      elim line [
        | err e ↦ some (err (RustboxError.vm_backend (codes "read status line: " ++ e)))
        | ok bytes ↦
            if is_empty (trim_end bytes)
            then some (err (RustboxError.vm_backend (codes "empty response")))
            else elim (status_of (trim_end bytes)) [
              | none ↦
                  some (
                    err (RustboxError.vm_backend (codes "invalid status line: " ++ trim_end bytes)))
              | some status ↦
                  let (headers, r'') = read_headers (suc (length r'.bytes)) 0 r' in
                  elim headers [
                    | none ↦ none
                    | some (err e) ↦
                        some (err (RustboxError.vm_backend (codes "read header: " ++ e)))
                    | some (ok len) ↦ elim (read_body len r'') [
                      | err e ↦ some (err (RustboxError.vm_backend (codes "read body: " ++ e)))
                      | ok body ↦ some (
                          if leb 200 status && ltb status 300
                          then ok (status, body)
                          else err (api_error method path status body))
                    ]
                  ]
            ]
      ]

  -- The fuel of the headers is always enough; its end would be reported as the end of the stream.
  abbrev settled : Option (Result RustboxError (ℕ × Text)) → Result RustboxError (ℕ × Text)
  settled none = err (RustboxError.vm_backend http.eof)
  settled (some result) = result

  -- `request` and `do_request` on a Unix socket
  unfoldable pub request : Text → Text → Text → Option Text → Exec H RustboxError (ℕ × Text)
  unfolding read_response request_text
  request socket method path body h =
      let (answer, h') = http.exchange socket (request_text method path body) h in
      elim answer [
        | Exchange.not_connected e ↦
            (err (RustboxError.vm_backend (codes "connect to socket: " ++ e)), h')
        | Exchange.not_written e ↦
            (err (RustboxError.vm_backend (codes "write request: " ++ e)), h')
        | Exchange.answered r ↦ (settled (read_response method path r), h')
      ]

  -- `put` and `patch`
  unfoldable pub send_json : Text → Text → Text → Dict Value → Exec H RustboxError (Unit {0})
  unfolding request
  send_json method socket path body h = elim (http.json body) [
    | err e ↦ (err (RustboxError.json e), h)
    | ok text ↦
        let (answer, h') = request socket method path (some text) h in
        elim answer [ err e ↦ (err e, h') | ok _ ↦ (ok tt, h') ]
  ]

  abbrev pub put : Text → Text → Dict Value → Exec H RustboxError (Unit {0})
  put = send_json (codes "PUT")

  abbrev pub patch : Text → Text → Dict Value → Exec H RustboxError (Unit {0})
  patch = send_json (codes "PATCH")
