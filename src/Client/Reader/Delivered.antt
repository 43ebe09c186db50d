-- ===== src/Client/Reader/Delivered.antt =====
-- src/client.rs: what the reader task passes on of what the server sent.
use mathlib.Core.List.{append_assoc, append-nil}
use bluecross.Base.{
  ℕ, zero, suc, ◌<◌, ◌≡◌, refl, sym, ap, ◌∙◌, subst, none, some, List, [], ◌∷◌, ◌++◌, length, arith,
  All, ok,
}
use bluecross.Json.{Json}
use bluecross.Secure.Snow.{Noise, NoiseLaws}
use bluecross.Secure.{SecureReader, SecureWriter, closed, read_chunk, read_bytes, end_of_frames}
use bluecross.Secure.Chunks.{concat}
use bluecross.Secure.Stream.{Delivers, AcceptsAll, write_chunks-Sends}
use bluecross.Protocol.{Message}
use bluecross.Protocol.Buffer.{
  IsSendable, encode_all, receive_all_buffered, receive_all_buffered-encode_all,
}
use bluecross.Protocol.Codec.{decode}
use bluecross.Protocol.Reader.{ProtocolReader, receive, receive_loop, with_decoded, with_chunk}
use bluecross.Protocol.Reader.Total.{read_chunk-shorter}
use bluecross.Protocol.Reader.Delivery.{receive_loop-whole}
use bluecross.Protocol.Reader.Session.{
  send_all, chunks_of, concat-chunks_of, chunks_of-IsChunk, send_all-write_chunks,
}
use bluecross.Client.Reader.{pass_on, reader_task}
use bluecross.Client.Reader.Split.{Split-buffer}

module _ (j : Json) (n : Noise) where
  open j use {Value}

  -- The connection is at its end.
  pub record IsEnd (last : SecureReader n) : Type 0 where
    pub incoming : last.incoming ≡ []
    pub ended_by : last.ended_by ≡ closed

  read_chunk-IsEnd : (last : SecureReader n) → IsEnd last → read_chunk n last ≡ ok none
  unfolding read_chunk read_bytes end_of_frames
  read_chunk-IsEnd last h = rw (h.incoming, h.ended_by)

  append_empty : (xs ys : List ℕ) → xs ++ ys ≡ [] → (xs ≡ []) × (ys ≡ [])
  append_empty [] ys e = (refl, e)
  append_empty (x ∷ xs) ys e = cc

  ended :
      (fuel : ℕ) (r : ProtocolReader j n)
      → r.buffer ≡ []
      → read_chunk n r.reader ≡ ok none
      → receive_loop j n (suc fuel) r ≡ some (ok none)
  unfolding receive_loop with_decoded with_chunk decode
  ended fuel r b e = ground (arith, ap (decode j) b, e)

  goes_on :
      (fuel : ℕ) (r : ProtocolReader j n) (chunk : List ℕ) (reader : SecureReader n)
      → r.buffer ≡ []
      → read_chunk n r.reader ≡ ok (some (chunk, reader))
      → receive_loop j n (suc fuel) r
        ≡ receive_loop j n fuel (record r { reader = reader; buffer = r.buffer ++ chunk })
  unfolding receive_loop with_decoded with_chunk decode
  goes_on fuel r chunk reader b e = ground (arith, ap (decode j) b, e)

  -- One round of the task.
  passed :
      (fuel : ℕ) (r : ProtocolReader j n) (m : Message Value) (next : ProtocolReader j n)
      (whole later : List (Message Value)) (tail : List ℕ)
      → receive j n r ≡ some (ok (some (m, next)))
      → receive_all_buffered j next.buffer ≡ (whole, tail)
      → reader_task j n fuel (record next { buffer = tail }) ≡ some later
      → reader_task j n (suc fuel) r ≡ some (m ∷ (whole ++ later))
  unfolding reader_task pass_on
  passed fuel r m next whole later tail e f g = ground (arith, e, f, g)

  -- With nothing left but empty chunks, `receive` comes to the end of the stream.
  receive_loop-IsEnd :
      (fuel : ℕ) (r : ProtocolReader j n) (cs : List (List ℕ)) (last : SecureReader n)
      → length r.reader.incoming < fuel
      → Delivers n r.reader cs last
      → r.buffer ++ concat cs ≡ []
      → IsEnd last
      → receive_loop j n fuel r ≡ some (ok none)
  receive_loop-IsEnd zero r cs last f d e h = absurd (omega arith)
  receive_loop-IsEnd (suc fuel) r [] last f d e h =
      ended fuel r (sym (append-nil r.buffer) ∙ e) (ap (read_chunk n) d ∙ read_chunk-IsEnd last h)
  receive_loop-IsEnd (suc fuel) r (c ∷ cs) last f (reader, read, d) e h =
      let (b, c_cs) = append_empty r.buffer (c ++ concat cs) e in
      let (k, rest) = append_empty c (concat cs) c_cs in
      goes_on fuel r c reader b read
      ∙ receive_loop-IsEnd fuel (record r { reader = reader; buffer = r.buffer ++ c }) cs last
          (omega (arith, read_chunk-shorter n r.reader reader c read)) d
          (append_assoc r.buffer c (concat cs) ∙ e) h

  reader_task-Delivers :
      (fuel : ℕ) (ms : List (Message Value)) (r : ProtocolReader j n) (cs : List (List ℕ))
      (last : SecureReader n)
      → length ms < fuel
      → All (IsSendable j) ms
      → Delivers n r.reader cs last
      → r.buffer ++ concat cs ≡ encode_all j ms
      → IsEnd last
      → reader_task j n fuel r ≡ some ms
  reader_task-Delivers zero ms r cs last f s d e h = absurd (omega arith)
  reader_task-Delivers (suc fuel) [] r cs last f s d e h =
      unfold reader_task receive in
      ap (pass_on j n (λ next. reader_task j n fuel next))
        (receive_loop-IsEnd (suc (length r.reader.incoming)) r cs last (omega arith) d e h)
  reader_task-Delivers (suc fuel) (m ∷ ms) r cs last f (s, ss) d e h =
      let (next, got, left) =
        receive_loop-whole m (suc (length r.reader.incoming)) r cs last (encode_all j ms) s
          (omega arith) d e in
      let k = Split-buffer j ms next.buffer (concat left.pending) ss left.holds in
      let tail = record next { buffer = k.tail } in
      let more : reader_task j n fuel tail ≡ some k.later =
        reader_task-Delivers fuel k.later tail left.pending last (omega (arith, k.fewer))
          k.later_sendable left.delivers k.following h in
      passed fuel r m next k.whole k.later k.tail (unfold receive in got)
        (ap (receive_all_buffered j) k.bytes
          ∙ receive_all_buffered-encode_all j k.whole k.tail k.whole_sendable k.cut)
        more
      ∙ ap (λ (l : List (Message Value)). some (m ∷ l)) (sym k.messages)

module _ (j : Json) {n : Noise} (l : NoiseLaws n) where
  open j use {Value}
  open l use {IsSynced}

  -- The messages that the server's writer sent on a fresh connection are what the client's event
  -- loop gets, each once and in order, however the frames cut them and however many are found in
  -- the buffer at once, and the task ends when the connection is closed: with fuel for one round
  -- more than there are messages it does not run out. The messages have payloads of at most
  -- `MAX_PAYLOAD` bytes that the JSON parser reads back, and the sessions are synchronised.
  pub reader_task-send_all :
      (fuel : ℕ) (ms : List (Message Value)) (w v : SecureWriter n) (r : ProtocolReader j n)
      → length ms < fuel
      → All (IsSendable j) ms
      → AcceptsAll n w
      → IsSynced (length (chunks_of j n ms)) w.session r.reader.session
      → w.written ≡ []
      → send_all j n w ms ≡ ok v
      → r.buffer ≡ []
      → r.reader.incoming ≡ v.written
      → r.reader.ended_by ≡ closed
      → reader_task j n fuel r ≡ some ms
  reader_task-send_all fuel ms w v r f s all y fresh sent empty i c =
      let (u, t, e, x) =
        write_chunks-Sends l 0 (chunks_of j n ms) w r.reader.session (chunks_of-IsChunk j n ms) all
          (subst (λ (k : ℕ). IsSynced k w.session r.reader.session) (omega arith) y) in
      let same : v ≡ u = cc (send_all-write_chunks j n w ms) in
      let bytes : v.written ≡ x.bytes =
        ap (λ (z : SecureWriter n). z.written) same ∙ x.written ∙ rw fresh in
      reader_task-Delivers j n fuel ms r (chunks_of j n ms)
        (record r.reader { incoming = []; session = t }) f s
        (x.delivers r.reader [] (i ∙ bytes ∙ sym (append-nil x.bytes)) refl)
        (rw empty (concat-chunks_of j n ms)) (record { incoming = refl; ended_by = c })
