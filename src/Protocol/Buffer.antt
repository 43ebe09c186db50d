-- ===== src/Protocol/Buffer.antt =====
-- src/protocol.rs: `receive_all_buffered`, which empties the buffer of complete messages.
use mathlib.Core.List.{append_assoc}
use bluecross.Base.{
  ℕ, zero, suc, ◌≤◌, ◌<◌, ◌≡◌, refl, ap, Option, none, some, List, [], ◌∷◌, ◌++◌, length, drop,
  arith, length-append, length-drop, drop-length-append, All, Result, ok, err, inl, inr,
  Option-cases,
}
use bluecross.Json.{Json, Survives}
use bluecross.Protocol.{Message}
use bluecross.Protocol.Codec.{DecodeError, max_payload, encode, decode}
use bluecross.Protocol.Codec.Frames.{payload_size, length-encode, decode-encode}
use bluecross.Protocol.Codec.Prefixes.{decode_takes}

module _ (j : Json) where
  open j use {Value}

  -- One round of the loop: `none` leaves it. `drain(..consumed)` drops the bytes of the message.
  unfoldable pub next_buffered :
      List ℕ → Result DecodeError (Option (Message Value × ℕ)) → Option (Message Value × List ℕ)
  next_buffered buffer (ok (some (msg, consumed))) = some (msg, drop consumed buffer)
  next_buffered buffer (ok none) = none
  next_buffered buffer (err e) = none

  unfoldable pub receive_buffered : ℕ → List ℕ → List (Message Value) × List ℕ
  unfolding next_buffered
  receive_buffered zero buffer = ([], buffer)
  receive_buffered (suc fuel) buffer = elim (next_buffered buffer (decode j buffer)) [
    | none ↦ ([], buffer)
    | some (msg, rest) ↦ let (messages, left) = receive_buffered fuel rest in (msg ∷ messages, left)
  ]

  -- A message takes five bytes or more, so the length of the buffer is fuel enough.
  unfoldable pub receive_all_buffered : List ℕ → List (Message Value) × List ℕ
  unfolding receive_buffered
  receive_all_buffered buffer = receive_buffered (length buffer) buffer

  next_buffered-shorter :
      (buffer : List ℕ) (r : Result DecodeError (Option (Message Value × ℕ)))
      → decode j buffer ≡ r
      → (msg : Message Value) (rest : List ℕ) → next_buffered buffer r ≡ some (msg, rest)
      → length rest < length buffer
  unfolding next_buffered
  next_buffered-shorter buffer (ok (some (m, n))) e msg rest h =
      ground (arith, decode_takes j buffer m n e, length-drop n buffer)
  next_buffered-shorter buffer (ok none) e msg rest h = cc
  next_buffered-shorter buffer (err x) e msg rest h = cc

  -- A buffer with no complete message at its front ends the loop.
  abbrev pub IsIncomplete : List ℕ → Type 0
  IsIncomplete buffer = next_buffered buffer (decode j buffer) ≡ none

  receive_buffered_stops :
      (fuel : ℕ) (buffer : List ℕ)
      → length buffer ≤ fuel
      → IsIncomplete (receive_buffered fuel buffer).1
  unfolding receive_buffered
  receive_buffered_stops zero [] h = unfold decode in refl
  receive_buffered_stops zero (b ∷ bs) h = absurd (omega arith)
  receive_buffered_stops (suc fuel) buffer h =
      elim (Option-cases (next_buffered buffer (decode j buffer))) [
        | inl e ↦ rw (e, receive_buffered) e
        | inr ((msg, rest), e) ↦
            rw (e, receive_buffered)
              (receive_buffered_stops fuel rest
                (omega (arith, next_buffered-shorter buffer _ refl msg rest e)))
      ]

  -- The loop ends by its own test on every buffer: what it leaves holds no complete message at its
  -- front.
  pub receive_all_buffered_stops : (buffer : List ℕ) → IsIncomplete (receive_all_buffered buffer).1
  unfolding receive_all_buffered
  receive_all_buffered_stops buffer = receive_buffered_stops (length buffer) buffer refl_le
    where
      refl_le : length buffer ≤ length buffer
      refl_le = omega arith

  -- A message that can be sent and received.
  pub record IsSendable (m : Message Value) : Type 0 where
    pub survives : Survives j m.payload
    pub fits : payload_size j m ≤ max_payload

  abbrev pub encode_all : List (Message Value) → List ℕ
  encode_all [] = []
  encode_all (m ∷ ms) = encode j m ++ encode_all ms

  next_buffered-encode :
      (m : Message Value) (rest : List ℕ)
      → IsSendable m
      → next_buffered (encode j m ++ rest) (decode j (encode j m ++ rest)) ≡ some (m, rest)
  next_buffered-encode m rest s = rw (decode-encode j m rest s.survives s.fits) (
      unfold next_buffered in
      ap (λ (l : List ℕ). some (m, l)) (drop-length-append _ (encode j m) rest refl))

  first_message :
      (m : Message Value) (ms : List (Message Value)) (tail : List ℕ)
      → IsSendable m
      → let buffer = encode_all (m ∷ ms) ++ tail in
        next_buffered buffer (decode j buffer) ≡ some (m, encode_all ms ++ tail)
  first_message m ms tail s =
      rw (append_assoc (encode j m) (encode_all ms) tail)
        (next_buffered-encode m (encode_all ms ++ tail) s)

  encode_all_longer :
      (m : Message Value) (ms : List (Message Value)) (tail : List ℕ)
      → length (encode_all ms ++ tail) < length (encode_all (m ∷ ms) ++ tail)
  encode_all_longer m ms tail = omega (
    arith,
    ap length (append_assoc (encode j m) (encode_all ms) tail),
    length-append (encode j m) (encode_all ms ++ tail),
    length-encode j m,
  )

  receive_buffered-encode_all :
      (ms : List (Message Value)) (fuel : ℕ) (tail : List ℕ)
      → All IsSendable ms
      → IsIncomplete tail
      → length (encode_all ms ++ tail) ≤ fuel
      → receive_buffered fuel (encode_all ms ++ tail) ≡ (ms, tail)
  unfolding receive_buffered
  receive_buffered-encode_all [] zero tail s t h = refl
  receive_buffered-encode_all [] (suc fuel) tail s t h = rw (t, receive_buffered)
  receive_buffered-encode_all (m ∷ ms) zero tail s t h =
      absurd (omega (arith, encode_all_longer m ms tail))
  receive_buffered-encode_all (m ∷ ms) (suc fuel) tail (s, ss) t h =
      rw (first_message m ms tail s, receive_buffered)
        (ap (λ (r : List (Message Value) × List ℕ). (m ∷ r.0, r.1))
          (receive_buffered-encode_all ms fuel tail ss t
            (omega (arith, encode_all_longer m ms tail))))

  -- A buffer holds the encodings of some messages, each with a payload of at most `MAX_PAYLOAD` bytes
  -- that the JSON parser reads back, and then bytes at whose front no complete message stands. Exactly
  -- these messages come out, in order, and those bytes stay in the buffer.
  pub receive_all_buffered-encode_all :
      (ms : List (Message Value)) (tail : List ℕ)
      → All IsSendable ms
      → IsIncomplete tail
      → receive_all_buffered (encode_all ms ++ tail) ≡ (ms, tail)
  unfolding receive_all_buffered
  receive_all_buffered-encode_all ms tail s t =
      receive_buffered-encode_all ms _ tail s t (omega arith)
