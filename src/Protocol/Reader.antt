-- ===== src/Protocol/Reader.antt =====
-- src/protocol.rs: `ProtocolReader` and `ProtocolWriter`, messages over the encrypted stream.
pub mod Total
pub mod Delivery
pub mod Session
use bluecross.Base.{
  ℕ, zero, suc, ◌+◌, Option, none, some, List, [], ◌∷◌, ◌++◌, length, drop, Result, ok, err, try,
}
use bluecross.Json.{Json}
use bluecross.Secure.Snow.{Noise}
use bluecross.Secure.{SecureReader, SecureWriter, SecureError, read_chunk, write_all}
use bluecross.Protocol.{Message}
use bluecross.Protocol.Codec.{DecodeError, encode, decode}

-- Either layer's error ends `receive`.
pub data ReceiveError : Type 0 where
  bad_message : DecodeError → ReceiveError
  bad_stream : SecureError → ReceiveError

module _ (j : Json) (n : Noise) where
  open j use {Value}

  pub record ProtocolReader : Type 0 where
    pub reader : SecureReader n
    pub buffer : List ℕ

  -- `Ok(Some(msg))` with the reader that is left, `Ok(None)` at the end of the stream, or an error.
  abbrev pub Received : Type 0
  Received = Result ReceiveError (Option (Message Value × ProtocolReader))

  -- What a round does with the next frame. The loop is passed on as `again`.
  unfoldable pub with_chunk :
      (ProtocolReader → Option Received)
      → ProtocolReader
      → Result SecureError (Option (List ℕ × SecureReader n))
      → Option Received
  with_chunk again r (ok (some (plaintext, reader))) =
      again (record r { reader = reader; buffer = r.buffer ++ plaintext })
  with_chunk again r (ok none) = some (ok none)
  with_chunk again r (err e) = some (err (bad_stream e))

  -- `drain(..consumed)` drops the bytes of the message.
  unfoldable pub with_decoded :
      (ProtocolReader → Option Received)
      → ProtocolReader
      → Result DecodeError (Option (Message Value × ℕ))
      → Option Received
  unfolding with_chunk
  with_decoded again r (ok (some (msg, consumed))) =
      some (ok (some (msg, record r { buffer = drop consumed r.buffer })))
  with_decoded again r (ok none) = with_chunk again r (read_chunk n r.reader)
  with_decoded again r (err e) = some (err (bad_message e))

  -- The loop of `receive`; `none` means that the fuel ran out.
  unfoldable pub receive_loop : ℕ → ProtocolReader → Option Received
  unfolding with_decoded
  receive_loop zero r = none
  receive_loop (suc fuel) r = with_decoded (λ next. receive_loop fuel next) r (decode j r.buffer)

  -- Every frame takes at least three bytes of the socket, so the bytes still to come bound the
  -- rounds.
  unfoldable pub receive : ProtocolReader → Option Received
  receive r = receive_loop (suc (length r.reader.incoming)) r

  unfoldable pub send : SecureWriter n → Message Value → Result SecureError (SecureWriter n)
  send w msg = write_all n w (encode j msg)
