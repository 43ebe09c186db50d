-- ===== src/Client/Reader.antt =====
-- src/client.rs: the task that reads messages and passes them on to the event loop.
pub mod Split
pub mod Delivered
use mathlib.Core.List.{append_assoc, append-nil}
use bluecross.Base.{
  ℕ, zero, suc, ◌+◌, ◌≤◌, ◌<◌, ◌≡◌, refl, sym, ap, ◌∙◌, subst, Option, none, some, List, [], ◌∷◌,
  ◌++◌, length, arith, All, All-append, Result, ok, err, inl, inr,
}
use bluecross.Json.{Json}
use bluecross.Secure.Snow.{Noise, NoiseLaws}
use bluecross.Secure.{
  SecureReader, SecureWriter, StreamEnd, closed, read_chunk, read_bytes, end_of_frames, max_chunk,
}
use bluecross.Secure.Chunks.{concat}
use bluecross.Secure.Stream.{Delivers, AcceptsAll, write_chunks-Sends}
use bluecross.Protocol.{Message}
use bluecross.Protocol.Buffer.{
  IsSendable, IsIncomplete, encode_all, next_buffered, receive_all_buffered,
  receive_all_buffered-encode_all,
}
use bluecross.Protocol.Codec.{encode, decode}
use bluecross.Protocol.Codec.Prefixes.{decode_prefix}
use bluecross.Protocol.Reader.{
  ProtocolReader, Received, receive, receive_loop, with_decoded, with_chunk,
}
use bluecross.Protocol.Reader.Total.{read_chunk-shorter}
use bluecross.Protocol.Reader.Delivery.{overlap, Left, receive_loop-whole}
use bluecross.Protocol.Reader.Session.{
  send_all, chunks_of, concat-chunks_of, chunks_of-IsChunk, send_all-write_chunks,
}

module _ (j : Json) (n : Noise) where
  open j use {Value}

  -- What a round passes on before the rounds that follow, which are passed in as `again`.
  unfoldable pub pass_on :
      (ProtocolReader j n → Option (List (Message Value)))
      → Option (Received j n)
      → Option (List (Message Value))
  pass_on again (some (ok (some (msg, reader)))) =
      let (buffered, left) = receive_all_buffered j reader.buffer in
      elim (again (record reader { buffer = left })) [
        | none ↦ none
        | some more ↦ some (msg ∷ buffered ++ more)
      ]
  pass_on again (some (ok none)) = some []
  pass_on again (some (err e)) = some []
  pass_on again none = none

  -- The messages that the event loop gets, in order, while it listens; `none` means that the fuel
  -- ran out.
  unfoldable pub reader_task : ℕ → ProtocolReader j n → Option (List (Message Value))
  unfolding pass_on
  reader_task zero r = none
  reader_task (suc fuel) r = pass_on (λ next. reader_task fuel next) (receive j n r)
