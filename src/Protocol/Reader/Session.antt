-- ===== src/Protocol/Reader/Session.antt =====
-- src/protocol.rs over src/secure.rs, end to end: `send` on one side, `receive` on the other.
use mathlib.Core.Path.{fun_ext}
use bluecross.Base.{
  ℕ, ◌≡◌, sym, ap, ap₂, ◌∙◌, refl, subst, List, [], ◌∷◌, ◌++◌, length, arith, All, All-append,
  Result, ok, try, try_assoc,
}
use bluecross.Json.{Json}
use bluecross.Secure.Snow.{Noise, NoiseLaws}
use bluecross.Secure.Chunks.{chunks, concat, concat-append, IsChunk, chunks-IsChunk, concat-chunks}
use bluecross.Secure.{SecureWriter, SecureError, max_chunk, write_chunk, write_chunks, write_all}
use bluecross.Secure.Stream.{AcceptsAll, write_chunks-Sends}
use bluecross.Protocol.{Message}
use bluecross.Protocol.Buffer.{IsSendable, encode_all}
use bluecross.Protocol.Codec.{encode}
use bluecross.Protocol.Reader.{ProtocolReader, send}
use bluecross.Protocol.Reader.Delivery.{Reads, Reads-Delivers}

module _ (j : Json) (n : Noise) where
  open j use {Value}

  -- The writer task sends one message after another.
  unfoldable pub send_all :
      SecureWriter n → List (Message Value) → Result SecureError (SecureWriter n)
  send_all w [] = ok w
  send_all w (m ∷ ms) = try (send j n w m) (λ v. send_all v ms)

  -- The chunks that the messages are sent in.
  abbrev pub chunks_of : List (Message Value) → List (List ℕ)
  chunks_of [] = []
  chunks_of (m ∷ ms) = chunks max_chunk (encode j m) ++ chunks_of ms

  write_chunks-append :
      (w : SecureWriter n) (xs ys : List (List ℕ))
      → write_chunks n w (xs ++ ys) ≡ try (write_chunks n w xs) (λ v. write_chunks n v ys)
  unfolding write_chunks
  write_chunks-append w [] ys = refl
  write_chunks-append w (x ∷ xs) ys =
      ap (try (write_chunk n w x)) (fun_ext (λ v. write_chunks-append v xs ys))
      ∙ sym (try_assoc (write_chunk n w x) _ _)

  pub send_all-write_chunks :
      (w : SecureWriter n) (ms : List (Message Value))
      → send_all w ms ≡ write_chunks n w (chunks_of ms)
  unfolding send_all
  send_all-write_chunks w [] = unfold write_chunks in refl
  send_all-write_chunks w (m ∷ ms) =
      ap (try (send j n w m)) (fun_ext (λ v. send_all-write_chunks v ms))
      ∙ (unfold send write_all in
          sym (write_chunks-append w (chunks max_chunk (encode j m)) (chunks_of ms)))

  pub concat-chunks_of : (ms : List (Message Value)) → concat (chunks_of ms) ≡ encode_all j ms
  concat-chunks_of [] = refl
  concat-chunks_of (m ∷ ms) =
      concat-append (chunks max_chunk (encode j m)) (chunks_of ms)
      ∙ ap₂ (λ (x y : List ℕ). x ++ y) (concat-chunks max_chunk (encode j m) (omega arith))
          (concat-chunks_of ms)

  pub chunks_of-IsChunk : (ms : List (Message Value)) → All (IsChunk max_chunk) (chunks_of ms)
  chunks_of-IsChunk [] = tt
  chunks_of-IsChunk (m ∷ ms) =
      All-append (IsChunk max_chunk) (chunks max_chunk (encode j m)) (chunks_of ms)
        (chunks-IsChunk max_chunk (encode j m) (omega arith)) (chunks_of-IsChunk ms)

module _ (j : Json) {n : Noise} (l : NoiseLaws n) where
  open j use {Value}
  open l use {IsSynced}

  -- Sending never fails while the socket takes every byte and the session has a nonce for each
  -- chunk, whatever the messages.
  pub send_all-total :
      (ms : List (Message Value)) (w : SecureWriter n) (s : n.Session)
      → AcceptsAll n w
      → IsSynced (length (chunks_of j n ms)) w.session s
      → (v : SecureWriter n) × (send_all j n w ms ≡ ok v)
  send_all-total ms w s all y =
      let (v, t, e, x) =
        write_chunks-Sends l 0 (chunks_of j n ms) w s (chunks_of-IsChunk j n ms) all
          (subst (λ (k : ℕ). IsSynced k w.session s) (omega arith) y) in
      (v, send_all-write_chunks j n w ms ∙ e)

  -- End to end: on a fresh connection the messages that `send` wrote are what `receive` returns,
  -- each once and in order, however the frames cut them. The messages have payloads of at most
  -- `MAX_PAYLOAD` bytes that the JSON parser reads back, the reader's session is synchronised with
  -- the writer's, and the reader's socket delivers what was written, with anything behind it.
  pub Reads-send_all :
      (ms : List (Message Value)) (w v : SecureWriter n) (r : ProtocolReader j n) (more : List ℕ)
      → All (IsSendable j) ms
      → AcceptsAll n w
      → IsSynced (length (chunks_of j n ms)) w.session r.reader.session
      → w.written ≡ []
      → send_all j n w ms ≡ ok v
      → r.buffer ≡ []
      → r.reader.incoming ≡ v.written ++ more
      → Reads r ms
  Reads-send_all ms w v r more s all y fresh sent empty i =
      let (u, t, e, x) =
        write_chunks-Sends l 0 (chunks_of j n ms) w r.reader.session (chunks_of-IsChunk j n ms) all
          (subst (λ (k : ℕ). IsSynced k w.session r.reader.session) (omega arith) y) in
      let same : v ≡ u = cc (send_all-write_chunks j n w ms) in
      let bytes : v.written ≡ x.bytes =
        ap (λ (z : SecureWriter n). z.written) same ∙ x.written ∙ rw fresh in
      Reads-Delivers ms r (chunks_of j n ms) _ s
        (x.delivers r.reader more (i ∙ ap (λ (z : List ℕ). z ++ more) bytes) refl)
        (rw empty (concat-chunks_of j n ms))
