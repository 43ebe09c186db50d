-- ===== src/Secure/Stream.antt =====
-- src/secure.rs: what `read_chunk` delivers of the bytes that `write_all` put on the socket.
use mathlib.Core.List.{append_assoc, append-nil}
use bluecross.Base.{
  ℕ, suc, ◌+◌, ◌/◌, ◌%◌, ◌^◌, ◌<◌, ◌≡◌, refl, ap, ◌∙◌, subst, true, some, List, [], ◌∷◌, ◌++◌,
  length, arith, length-append, take-length-append, drop-length-append, All, Result, ok,
}
use bluecross.Secure.Snow.{Noise, NoiseLaws}
use bluecross.Secure.Chunks.{chunks, concat, IsChunk, chunks-IsChunk, concat-chunks}
use bluecross.Secure.{
  SecureReader, SecureWriter, SecureError, max_chunk, u16_to_be_bytes, u16_from_be_bytes,
  read_chunk, write_chunk, write_chunks, write_all,
}

module _ (n : Noise) where
  open n use {Session}

  -- The next reads deliver these chunks, one by one, and leave the reader as `last`.
  abbrev pub Delivers : SecureReader n → List (List ℕ) → SecureReader n → Type 0
  Delivers r [] last = r ≡ last
  Delivers r (chunk ∷ more) last =
      (next : SecureReader n) × (read_chunk n r ≡ ok (some (chunk, next))) × Delivers next more last

  -- The socket never refuses bytes.
  abbrev pub AcceptsAll : SecureWriter n → Type 0
  AcceptsAll w = (before bytes : List ℕ) → w.accepts before bytes ≡ true

  frame : List ℕ → List ℕ
  frame ciphertext = u16_to_be_bytes (length ciphertext % 2 ^ 16) ++ ciphertext

  write_chunk-frame :
      (w : SecureWriter n) (chunk ciphertext : List ℕ) (session : Session)
      → AcceptsAll w
      → n.write_message w.session chunk ≡ some (ciphertext, session)
      → write_chunk n w chunk
        ≡ ok (record w { written = w.written ++ frame ciphertext; session = session })
  unfolding frame write_chunk
  write_chunk-frame w chunk ciphertext session all e =
      let size = u16_to_be_bytes (length ciphertext % 2 ^ 16) in
      ground (
        arith,
        all w.written size,
        all (w.written ++ size) ciphertext,
        append_assoc w.written size ciphertext,
      )

  read_chunk-frame :
      (r : SecureReader n) (plaintext ciphertext more : List ℕ) (session : Session)
      → r.incoming ≡ frame ciphertext ++ more
      → 0 < length ciphertext
      → length ciphertext < 2 ^ 16
      → n.read_message r.session ciphertext ≡ some (plaintext, session)
      → read_chunk n r ≡ ok (some (plaintext, record r { incoming = more; session = session }))
  unfolding frame read_chunk
  read_chunk-frame r plaintext ciphertext more session i h k e =
      let size = length ciphertext in
      rw i (
        ground (
          arith,
          length-append ciphertext more,
          take-length-append (u16_from_be_bytes (size % 2 ^ 16 / 256 % 256) (size % 2 ^ 16 % 256))
              ciphertext more,
          drop-length-append (u16_from_be_bytes (size % 2 ^ 16 / 256 % 256) (size % 2 ^ 16 % 256))
              ciphertext more,
        ))

module _ {n : Noise} (l : NoiseLaws n) where
  open n use {Session}
  open l use {IsSynced}

  -- `v` is `w` after it has sent these chunks. A reader whose session is `s` gets them back, and its
  -- session is then `t`; the two sides have nonces left for `k` messages.
  pub record Sent (k : ℕ) (cs : List (List ℕ)) (w v : SecureWriter n) (s t : Session) : Type 0 where
    pub bytes : List ℕ
    pub written : v.written ≡ w.written ++ bytes
    pub accepts : AcceptsAll n v
    pub synced : IsSynced k v.session t
    pub delivers :
        (r : SecureReader n) (more : List ℕ)
        → r.incoming ≡ bytes ++ more
        → r.session ≡ s
        → Delivers n r cs (record r { incoming = more; session = t })

  abbrev pub Sends :
      ℕ → List (List ℕ) → SecureWriter n → Session → Result SecureError (SecureWriter n) → Type 0
  Sends k cs w s result = (v : SecureWriter n) × (t : Session) × (result ≡ ok v) × Sent k cs w v s t

  write_chunk-Sends :
      (k : ℕ) (chunk : List ℕ) (w : SecureWriter n) (s : Session)
      → IsChunk max_chunk chunk
      → AcceptsAll n w
      → IsSynced (suc k) w.session s
      → Sends k (chunk ∷ []) w s (write_chunk n w chunk)
  write_chunk-Sends k chunk w s c all y =
      let (ciphertext, a, b, enc, dec, size, z) = l.transport k w.session s chunk y (omega arith) in
      (
        record w { written = w.written ++ frame n ciphertext; session = a },
        b,
        write_chunk-frame n w chunk ciphertext a all enc,
        record {
          bytes = frame n ciphertext;
          written = refl;
          accepts = all;
          synced = z;
          delivers = λ r more i e. (
            record r { incoming = more; session = b },
            read_chunk-frame n r chunk ciphertext more b i (omega arith) (omega arith) (rw e dec),
            refl,
          );
        },
      )

  Sent-trans :
      (k m : ℕ) (chunk : List ℕ) (cs : List (List ℕ)) (w v u : SecureWriter n) (s t q : Session)
      → Sent k (chunk ∷ []) w v s t
      → Sent m cs v u t q
      → Sent m (chunk ∷ cs) w u s q
  Sent-trans k m chunk cs w v u s t q x y = record {
    bytes = x.bytes ++ y.bytes;
    written =
        y.written
        ∙ ap (λ (z : List ℕ). z ++ y.bytes) x.written
        ∙ append_assoc w.written x.bytes y.bytes;
    accepts = y.accepts;
    synced = y.synced;
    delivers = λ r more i e.
        let (next, read, same) =
          x.delivers r (y.bytes ++ more) (i ∙ append_assoc x.bytes y.bytes more) e in
        (
          next,
          read,
          rw same
              (y.delivers (record r { incoming = y.bytes ++ more; session = t }) more refl refl),
        );
  }

  pub write_chunks-Sends :
      (k : ℕ) (cs : List (List ℕ)) (w : SecureWriter n) (s : Session)
      → All (IsChunk max_chunk) cs
      → AcceptsAll n w
      → IsSynced (length cs + k) w.session s
      → Sends k cs w s (write_chunks n w cs)
  unfolding write_chunks
  write_chunks-Sends k [] w s c all y = (
    w,
    s,
    refl,
    record {
      bytes = [];
      written = rw append-nil;
      accepts = all;
      synced = subst (λ (i : ℕ). IsSynced i w.session s) (omega arith) y;
      delivers = λ r more i e. ground arith;
    },
  )
  write_chunks-Sends k (chunk ∷ cs) w s (c, c') all y =
      let (v, t, e, x) =
        write_chunk-Sends (length cs + k) chunk w s c all
          (subst (λ (i : ℕ). IsSynced i w.session s) (omega arith) y) in
      let (u, q, d, z) = write_chunks-Sends k cs v t c' x.accepts x.synced in
      (u, q, rw e d, Sent-trans (length cs + k) k chunk cs w v u s t q x z)

  -- The socket takes every byte, and the two sides are synchronised with nonces for at least as many
  -- messages as the plaintext has chunks. Then `write_all` does not fail, and sends the plaintext in
  -- chunks of 1 to `MAX_CHUNK` bytes, which the peer's reader decrypts in order. Their concatenation
  -- is the plaintext.
  pub write_all-Sends :
      (k : ℕ) (plaintext : List ℕ) (w : SecureWriter n) (s : Session)
      → AcceptsAll n w
      → IsSynced (length (chunks max_chunk plaintext) + k) w.session s
      → Sends k (chunks max_chunk plaintext) w s (write_all n w plaintext)
        × All (IsChunk max_chunk) (chunks max_chunk plaintext)
        × (concat (chunks max_chunk plaintext) ≡ plaintext)
  unfolding write_all
  write_all-Sends k plaintext w s all y = (
    write_chunks-Sends k (chunks max_chunk plaintext) w s
        (chunks-IsChunk max_chunk plaintext (omega arith)) all y,
    chunks-IsChunk max_chunk plaintext (omega arith),
    concat-chunks max_chunk plaintext (omega arith),
  )
