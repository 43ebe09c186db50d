-- ===== src/Protocol/Reader/Total.antt =====
-- src/protocol.rs: how the loop of `receive` ends.
use bluecross.Base.{
  ℕ, zero, suc, ◌+◌, ◌*◌, ◌<◌, ◌≡◌, refl, Option, none, some, List, [], ◌∷◌, length, arith,
  length-drop, Result, ok, err, ◌≢◌, inl, inr, ◌++◌, Option-cases,
}
use bluecross.Json.{Json}
use bluecross.Secure.Snow.{Noise}
use bluecross.Secure.{SecureReader, SecureError, read_chunk, read_bytes}
use bluecross.Protocol.{Message}
use bluecross.Protocol.Codec.{DecodeError, decode}
use bluecross.Protocol.Reader.{
  ProtocolReader, Received, receive_loop, receive, with_decoded, with_chunk,
}

module _ (n : Noise) where
  read_bytes-shorter :
      (r next : SecureReader n) (bytes plaintext : List ℕ)
      → read_bytes n r bytes ≡ ok (some (plaintext, next))
      → length next.incoming < length bytes
  unfolding read_bytes
  read_bytes-shorter r next (a ∷ b ∷ rest) plaintext e =
      ground (arith, length-drop (a * 256 + b) rest)
  read_bytes-shorter r next (a ∷ []) plaintext e = ground arith
  read_bytes-shorter r next [] plaintext e = ground arith

  pub read_chunk-shorter :
      (r next : SecureReader n) (plaintext : List ℕ)
      → read_chunk n r ≡ ok (some (plaintext, next))
      → length next.incoming < length r.incoming
  unfolding read_chunk
  read_chunk-shorter r next plaintext e = read_bytes-shorter r next r.incoming plaintext e

module _ (j : Json) (n : Noise) where
  -- The rounds that follow have less to read.
  abbrev GoesOn : (ProtocolReader j n → Option (Received j n)) → ProtocolReader j n → Type 0
  GoesOn again r =
      (next : ProtocolReader j n)
      → length next.reader.incoming < length r.reader.incoming
      → again next ≢ none

  with_chunk-ne-none :
      (again : ProtocolReader j n → Option (Received j n)) (r : ProtocolReader j n)
      → GoesOn again r
      → (c : Result SecureError (Option (List ℕ × SecureReader n))) → read_chunk n r.reader ≡ c
      → with_chunk j n again r c ≢ none
  unfolding with_chunk
  with_chunk-ne-none again r g (ok (some (plaintext, reader))) e =
      g (record r { reader = reader; buffer = r.buffer ++ plaintext })
        (read_chunk-shorter n r.reader reader plaintext e)
  with_chunk-ne-none again r g (ok none) e = λ p. cc
  with_chunk-ne-none again r g (err x) e = λ p. cc

  with_decoded-ne-none :
      (again : ProtocolReader j n → Option (Received j n)) (r : ProtocolReader j n)
      → GoesOn again r
      → (d : Result DecodeError (Option (Message j.Value × ℕ))) → with_decoded j n again r d ≢ none
  unfolding with_decoded
  with_decoded-ne-none again r g (ok (some (msg, consumed))) = λ p. cc
  with_decoded-ne-none again r g (ok none) =
      with_chunk-ne-none again r g (read_chunk n r.reader) refl
  with_decoded-ne-none again r g (err x) = λ p. cc

  receive_loop-ne-none :
      (fuel : ℕ) (r : ProtocolReader j n)
      → length r.reader.incoming < fuel
      → receive_loop j n fuel r ≢ none
  unfolding receive_loop
  receive_loop-ne-none zero r h = absurd (omega arith)
  receive_loop-ne-none (suc fuel) r h =
      with_decoded-ne-none (λ next. receive_loop j n fuel next) r
        (λ next k. receive_loop-ne-none fuel next (omega arith)) (decode j r.buffer)

  -- `receive` returns a message, the end of the stream or an error on every input: its fuel
  -- never runs out.
  pub receive-total :
      (r : ProtocolReader j n) → (result : Received j n) × (receive j n r ≡ some result)
  unfolding receive
  receive-total r = elim (Option-cases (receive j n r)) [
    | inl e ↦ absurd (receive_loop-ne-none (suc (length r.reader.incoming)) r (omega arith) e)
    | inr found ↦ found
  ]
