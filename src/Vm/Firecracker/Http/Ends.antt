-- ===== src/Vm/Firecracker/Http/Ends.antt =====
-- The loops over a response of the Firecracker API, crates/rustbox-vm/src/firecracker/api.rs, come
-- to an end: every line that is not blank takes bytes from the stream.
use rustbox.Prelude.{
  ℕ, zero, suc, ◌+◌, ◌<◌, Text, List, [], ◌∷◌, false, some, Result, ok, err, length, is_empty, ◌≡◌,
  refl, ap, ◌∙◌, arith, Bool-cases, Option-cases, Result-cases, inl, inr,
}
use rustbox.Prelude.Whitespace.{trim, trim_start, trim_end}
use rustbox.Core.Error.{RustboxError}
use rustbox.Wire.Stream.{Reader}
use rustbox.Vm.Firecracker.Http.{
  Http, split_line, read_line, read_headers, read_response, status_of, read_body,
}

nonblank : (line : Text) → is_empty (trim line) ≡ false → 0 < length line
unfolding trim trim_start trim_end
nonblank [] h = absurd (ground (arith, h))
nonblank (b ∷ line) h = omega arith

split_line-length :
    (bytes line later : List ℕ)
    → split_line bytes ≡ some (line, later)
    → length line + length later ≡ length bytes
unfolding split_line
split_line-length [] line later e = absurd (ground (arith, e))
split_line-length (b ∷ bs) line later e = elim (Option-cases (split_line bs)) [
  | inl none_left ↦ ground (arith, none_left, e)
  | inr ((front, back), found) ↦ ground (arith, found, e, split_line-length bs front back found)
]

module _ {H : Type 0} (http : Http H) where
  read_line-length :
      (r : Reader) (line : Text)
      → (read_line http r).0 ≡ ok line
      → length line + length (read_line http r).1.bytes ≡ length r.bytes
  unfolding read_line
  read_line-length r line e = elim (Option-cases (split_line r.bytes)) [
    | inr ((front, back), found) ↦
        let whole = split_line-length r.bytes front back found in
        elim (Result-cases (http.utf8 front)) [
          | inl (_, good) ↦ ground (arith, found, good, e, whole)
          | inr (m, bad) ↦ absurd (ground (arith, found, bad, e))
        ]
    | inl missing ↦ elim (Option-cases r.fault) [
      | inr (m, broken) ↦ absurd (ground (arith, missing, broken, e))
      | inl end ↦ elim (Result-cases (http.utf8 r.bytes)) [
        | inl (_, good) ↦ ground (arith, missing, end, good, e)
        | inr (m, bad) ↦ absurd (ground (arith, missing, end, bad, e))
      ]
    ]
  ]

  read_headers-ends :
      (fuel len : ℕ) (r : Reader)
      → length r.bytes < fuel
      → (result : Result Text ℕ) × ((read_headers http fuel len r).0 ≡ some result)
  unfolding read_headers
  read_headers-ends zero len r h = absurd (omega arith)
  read_headers-ends (suc fuel) len r h = elim (Result-cases (read_line http r).0) [
    | inr (e, failed) ↦ (err e, rw (failed, read_headers) refl)
    | inl (line, read) ↦ elim (Bool-cases (is_empty (trim line))) [
      | inl blank ↦ (ok len, rw (read, blank, read_headers) refl)
      | inr more ↦
          rw (read, more, read_headers)
            (read_headers-ends fuel _ (read_line http r).1
              (omega (arith, h, read_line-length r line read, nonblank line more)))
    ]
  ]

  -- A response is read to its end: the fuel of its headers is enough.
  pub read_response-ends :
      (method path : Text) (r : Reader)
      → (result : Result RustboxError (ℕ × Text)) × (read_response http method path r ≡ some result)
  unfolding read_response
  read_response-ends method path r = elim (Result-cases (read_line http r).0) [
    | inr (e, failed) ↦ rw (failed, read_response) (_, refl)
    | inl (line, read) ↦ elim (Bool-cases (is_empty (trim_end line))) [
      | inl blank ↦ rw (read, blank, read_response) (_, refl)
      | inr more ↦ elim (Option-cases (status_of (trim_end line))) [
        | inl unknown ↦ rw (read, more, unknown, read_response) (_, refl)
        | inr (status, known) ↦
            let (headers, ended) =
              read_headers-ends (suc (length (read_line http r).1.bytes)) 0 (read_line http r).1
                (omega arith) in
            elim (Result-cases headers) [
              | inr (e, failed) ↦
                  rw (read, more, known, ended ∙ ap some failed, read_response) (_, refl)
              | inl (len, good) ↦
                  elim (Result-cases (
                    read_body http len
                      (read_headers http (suc (length (read_line http r).1.bytes)) 0
                        (read_line http r).1).1)) [
                          | inr (e, failed) ↦
                              rw (read, more, known, ended ∙ ap some good, failed, read_response)
                                (_, refl)
                          | inl (body, whole) ↦
                              rw (read, more, known, ended ∙ ap some good, whole, read_response)
                                (_, refl)
                        ]
            ]
      ]
    ]
  ]
