-- ===== src/Examples/Wire.antt =====
-- The wire between the daemon and the agent on concrete messages. A message is its own payload,
-- which stands for `serde_json`.
use rustbox.Prelude.{
  ℕ, Text, codes, List, [], ◌∷◌, ◌++◌, none, ok, err, ◌≡◌, refl, sym, ap, zero, suc, length, arith,
}
use rustbox.Core.Error.{RustboxError}
use rustbox.Wire.Frame.{Codec, write_message, recv_response}
use rustbox.Wire.Frame.RoundTrip.{sound, frame}
use rustbox.Wire.Frame.Sequence.{send_all, receive_all, response_round_trip}
use rustbox.Wire.Frame.Errors.{recv_response-oversized}

abbrev raw : Codec (List ℕ)
raw = record { to_vec = ok; from_slice = ok }

raw_compatible : (a payload : List ℕ) → raw.to_vec a ≡ ok payload → raw.from_slice payload ≡ ok a
raw_compatible a payload e = sym e

abbrev decimal : ℕ → Text
decimal n = n ∷ []

abbrev pong : List ℕ
pong = codes "{\"type\":\"pong\"}"

abbrev messages : List (List ℕ)
messages = pong ∷ codes "{}" ∷ []

response_round_trip_example :
    (bytes : List ℕ) × (send_all (write_message raw) messages (sound []) ≡ (ok tt, sound bytes))
    × (receive_all 2
          (recv_response raw (codes "eof") decimal)
          (record { bytes = bytes ++ (1 ∷ []); fault = none })
        ≡ (ok messages, record { bytes = 1 ∷ []; fault = none }))
response_round_trip_example =
    response_round_trip raw raw raw_compatible messages
      ((pong, refl, omega arith), ((codes "{}", refl, omega arith), tt)) [] (1 ∷ []) none
      (codes "eof") decimal

zeros : ℕ → List ℕ
zeros zero = []
zeros (suc n) = 0 ∷ zeros n

length-zeros : (n : ℕ) → length (zeros n) ≡ n
unfolding zeros
length-zeros zero = refl
length-zeros (suc n) = ap suc (length-zeros n)

abbrev large : List ℕ
large = zeros 20_000_000

recv_response-oversized_example :
    (write_message raw large (sound []) ≡ (ok tt, sound (frame large)))
    × (recv_response raw (codes "eof") decimal (record { bytes = frame large ++ []; fault = none })
        ≡ (
          err (
              RustboxError.agent_comm
                (codes "message too large: " ++ (decimal (length large) ++ codes " bytes"))),
          record { bytes = large ++ []; fault = none },
        ))
recv_response-oversized_example =
    recv_response-oversized raw (codes "eof") decimal large large [] none refl
      (omega (arith, length-zeros 20_000_000)) (omega (arith, length-zeros 20_000_000))
