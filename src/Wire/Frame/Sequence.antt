-- ===== src/Wire/Frame/Sequence.antt =====
-- Whole conversations: messages written one after the other are read in the same order.
use rustbox.Prelude.{
  ℕ, zero, suc, ◌≤◌, Text, List, [], ◌∷◌, ◌++◌, Option, ok, Exec, ◌>>=◌, ◌>>◌, lift, length, ◌≡◌,
  refl, ◌∙◌, append_assoc, append-nil, All,
}
use rustbox.Wire.Stream.{Reader, Writer}
use rustbox.Wire.Frame.{
  Codec, IsWireCompatible, max_message_size, read_message, write_message, send_request,
  recv_response,
}
use rustbox.Wire.Frame.RoundTrip.{
  sound, frame, write_message-sound, send_request-sound, read_message-frame, recv_response-frame,
}

module _ {A E : Type 0} where
  abbrev pub send_all : (A → Exec Writer E (Unit {0})) → List A → Exec Writer E (Unit {0})
  send_all send [] = lift (ok tt)
  send_all send (msg ∷ msgs) = send msg >> send_all send msgs

  abbrev pub receive_all : ℕ → Exec Reader E A → Exec Reader E (List A)
  receive_all zero receive = lift (ok [])
  receive_all (suc n) receive = do
    msg ← receive
    msgs ← receive_all n receive
    lift (ok (msg ∷ msgs))

-- A message that its codec prints, within the size limit.
abbrev pub Fits : {A : Type 0} → Codec A → A → Type 0
Fits codec msg =
    (payload : List ℕ) × (codec.to_vec msg ≡ ok payload) × (length payload ≤ max_message_size)

-- The bytes on the wire.
abbrev pub frames : {A : Type 0} (codec : Codec A) (msgs : List A) → All (Fits codec) msgs → List ℕ
frames codec [] h = []
frames codec (msg ∷ msgs) (h, hs) = frame h.0 ++ frames codec msgs hs

module _ {A E : Type 0} (codec : Codec A) (send : A → Exec Writer E (Unit {0}))
    (send_one : (msg : A) (h : Fits codec msg) (before : List ℕ)
      → send msg (sound before) ≡ (ok tt, sound (before ++ frame h.0))) where
  pub send_all_lem :
      (msgs : List A) (h : All (Fits codec) msgs) (before : List ℕ)
      → send_all send msgs (sound before) ≡ (ok tt, sound (before ++ frames codec msgs h))
  send_all_lem [] h before = rw append-nil
  send_all_lem (msg ∷ msgs) (h, hs) before =
      rw (send_one msg h before) (send_all_lem msgs hs (before ++ frame h.0) ∙ rw append_assoc)

module _ {A E : Type 0} (codec : Codec A) (receive : Exec Reader E A)
    (receive_one : (msg : A) (h : Fits codec msg) (rest : List ℕ) (fault : Option Text)
      → receive (record { bytes = frame h.0 ++ rest; fault = fault })
        ≡ (ok msg, record { bytes = rest; fault = fault })) where
  receive_all_lem :
      (msgs : List A) (h : All (Fits codec) msgs) (rest : List ℕ) (fault : Option Text)
      → receive_all
          (length msgs)
          receive
          (record { bytes = frames codec msgs h ++ rest; fault = fault })
        ≡ (ok msgs, record { bytes = rest; fault = fault })
  receive_all_lem [] h rest fault = refl
  receive_all_lem (msg ∷ msgs) (h, hs) rest fault = rw append_assoc (
      rw (receive_one msg h (frames codec msgs hs ++ rest) fault)
        (rw (receive_all_lem msgs hs rest fault)))

module _ {A : Type 0} (sender receiver : Codec A) (compatible : IsWireCompatible sender receiver)
    (msgs : List A) (fits : All (Fits sender) msgs) (before rest : List ℕ)
    (fault : Option Text) where
  -- Between compatible codecs, responses within 16 MiB that the agent writes with `write_message`
  -- all go out, and as many calls of the daemon's `recv_response` return them in order and leave
  -- the stream at the byte after the last.
  pub response_round_trip :
      (eof : Text) (decimal : ℕ → Text)
      → (bytes : List ℕ) × (send_all (write_message sender) msgs (sound before)
          ≡ (ok tt, sound (before ++ bytes)))
        × (receive_all
              (length msgs)
              (recv_response receiver eof decimal)
              (record { bytes = bytes ++ rest; fault = fault })
            ≡ (ok msgs, record { bytes = rest; fault = fault }))
  response_round_trip eof decimal = (
    frames sender msgs fits,
    send_all_lem sender (write_message sender)
        (λ msg h start. write_message-sound sender msg h.0 h.1 start) msgs fits before,
    receive_all_lem sender (recv_response receiver eof decimal)
        (λ msg h after end.
          recv_response-frame receiver msg h.0 after end (compatible msg h.0 h.1) h.2 eof decimal)
        msgs fits rest fault,
  )

  -- Between compatible codecs, requests within 16 MiB that the daemon sends with `send_request`
  -- all go out, and as many calls of the agent's `read_message` return them in order and leave the
  -- stream at the byte after the last.
  pub request_round_trip :
      (bytes : List ℕ) × (send_all (send_request sender) msgs (sound before)
        ≡ (ok tt, sound (before ++ bytes)))
      × (receive_all
            (length msgs)
            (read_message receiver)
            (record { bytes = bytes ++ rest; fault = fault })
          ≡ (ok msgs, record { bytes = rest; fault = fault }))
  request_round_trip = (
    frames sender msgs fits,
    send_all_lem sender (send_request sender)
        (λ msg h start. send_request-sound sender msg h.0 h.1 start) msgs fits before,
    receive_all_lem sender (read_message receiver)
        (λ msg h after end.
          read_message-frame receiver msg h.0 after end (compatible msg h.0 h.1) h.2)
        msgs fits rest fault,
  )
