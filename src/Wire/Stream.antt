-- ===== src/Wire/Stream.antt =====
-- Byte streams. A reader is the bytes that are still to come and what follows them: the end of the
-- stream or an I/O error. A writer is the bytes written so far, the
-- number of bytes after which writing fails, if it does, and what flushing does.
use rustbox.Prelude.{
  ℕ, ◌+◌, ◌*◌, ◌/◌, ◌%◌, ◌^◌, ◌<◌, Text, List, [], ◌∷◌, ◌++◌, Option, none, some, leb,
  if◌then◌else◌, Exec, Result, ok, err, ◌-◌, take, drop, length, ◌≡◌, arith, length-append,
  take-length_append, drop-length_append,
}

pub data IoError : Type 0 where
  unexpected_eof : IoError
  other : Text → IoError

-- `Display` of `std::io::Error`
abbrev pub io_text : (eof : Text) → IoError → Text
io_text eof IoError.unexpected_eof = eof
io_text eof (IoError.other e) = e

pub record Reader : Type 0 where
  pub bytes : List ℕ
  pub fault : Option Text

pub record Writer : Type 0 where
  pub written : List ℕ
  pub fault : Option (ℕ × Text)
  pub flush_fault : Option Text

abbrev io_error : Option Text → IoError
io_error none = IoError.unexpected_eof
io_error (some e) = IoError.other e

-- `read_exact` into a buffer of `n` bytes
unfoldable pub read_exact : ℕ → Exec Reader IoError (List ℕ)
read_exact n r =
    if leb n (length r.bytes)
    then (ok (take n r.bytes), record r { bytes = drop n r.bytes })
    else (err (io_error r.fault), record r { bytes = [] })

write_by : Option (ℕ × Text) → List ℕ → Exec Writer Text (Unit {0})
write_by none bytes w = (ok tt, record w { written = w.written ++ bytes })
write_by (some (room, e)) bytes w =
    if leb (length bytes) room
    then (ok tt, record w { written = w.written ++ bytes; fault = some (room - length bytes, e) })
    else (err e, record w { written = w.written ++ take room bytes; fault = some (0, e) })

-- `write_all`
unfoldable pub write_all : List ℕ → Exec Writer Text (Unit {0})
unfolding write_by
write_all bytes w = write_by w.fault bytes w

flush_by : Option Text → Result Text (Unit {0})
flush_by none = ok tt
flush_by (some e) = err e

-- `flush`
unfoldable pub flush : Exec Writer Text (Unit {0})
unfolding flush_by
flush w = (flush_by w.flush_fault, w)

-- `u32::to_be_bytes` and `u32::from_be_bytes`
unfoldable pub to_be_bytes : ℕ → List ℕ
to_be_bytes n = (n / 2 ^ 24 % 256) ∷ (n / 2 ^ 16 % 256) ∷ (n / 2 ^ 8 % 256) ∷ (n % 256) ∷ []

unfoldable pub from_be_bytes : List ℕ → ℕ
from_be_bytes (a ∷ b ∷ c ∷ d ∷ []) = a * 2 ^ 24 + b * 2 ^ 16 + c * 2 ^ 8 + d
from_be_bytes _ = 0

-- A `u32` survives its four bytes.
pub from_be_bytes-to_be_bytes : (n : ℕ) → n < 2 ^ 32 → from_be_bytes (to_be_bytes n) ≡ n
unfolding from_be_bytes to_be_bytes
from_be_bytes-to_be_bytes n h = omega arith

-- A buffer filled from a stream that begins with bytes as long as the buffer holds them.
pub read_exact-append :
    (front rest : List ℕ) (fault : Option Text)
    → read_exact (length front) (record { bytes = front ++ rest; fault = fault })
      ≡ (ok front, record { bytes = rest; fault = fault })
unfolding read_exact
read_exact-append front rest fault =
    ground (
      arith,
      length-append front rest,
      take-length_append front rest,
      drop-length_append front rest,
    )

-- A stream that ends or fails before the buffer is full.
pub read_exact-short :
    (n : ℕ) (bytes : List ℕ) (fault : Option Text)
    → length bytes < n
    → read_exact n (record { bytes = bytes; fault = fault })
      ≡ (err (io_error fault), record { bytes = []; fault = fault })
unfolding read_exact
read_exact-short n bytes fault h = ground arith
