-- ===== src/Protocol/Reader/Delivery.antt =====
-- src/protocol.rs over src/secure.rs: what `receive` returns of a stream of chunks.
use mathlib.Core.List.{append_assoc}
use bluecross.Base.{
  ℕ, zero, suc, ◌<◌, ◌≡◌, refl, ◌∙◌, some, List, [], ◌∷◌, ◌++◌, length, drop, arith,
  drop-length-append, All, ok, ◌⊎◌, inl, inr,
}
use bluecross.Json.{Json}
use bluecross.Secure.Snow.{Noise}
use bluecross.Secure.Chunks.{concat}
use bluecross.Secure.{SecureReader, read_chunk}
use bluecross.Secure.Stream.{Delivers}
use bluecross.Protocol.{Message}
use bluecross.Protocol.Buffer.{IsSendable, encode_all}
use bluecross.Protocol.Codec.{encode, decode}
use bluecross.Protocol.Codec.Frames.{decode-encode}
use bluecross.Protocol.Codec.Prefixes.{decode_prefix}
use bluecross.Protocol.Reader.{ProtocolReader, receive_loop, receive}
use bluecross.Protocol.Reader.Total.{read_chunk-shorter}

-- Where two ways to write a list as a front and a rest cut it.
abbrev pub Overlap {ℓ} : {A : Type ℓ} → List A → List A → List A → List A → Type ℓ
Overlap {A = A} xs ys us vs =
    ((over : List A) × (xs ≡ us ++ over) × (over ++ ys ≡ vs))
    ⊎ ((x : A) × (over : List A) × (us ≡ xs ++ (x ∷ over)) × (ys ≡ (x ∷ over) ++ vs))

pub overlap {ℓ} : {A : Type ℓ} (xs ys us vs : List A) → xs ++ ys ≡ us ++ vs → Overlap xs ys us vs
overlap xs ys [] vs e = inl (xs, refl, e)
overlap [] ys (u ∷ us) vs e = inr (u, us, refl, e)
overlap (x ∷ xs) ys (u ∷ us) vs e = elim (overlap xs ys us vs (cc)) [
  | inl (over, p, q) ↦ inl (over, cc, q)
  | inr (y, over, p, q) ↦ inr (y, over, cc, q)
]

module _ {j : Json} {n : Noise} where
  open j use {Value}

  -- The next calls of `receive` return these messages.
  abbrev pub Reads : ProtocolReader j n → List (Message Value) → Type 0
  Reads r [] = Unit
  Reads r (m ∷ ms) =
      (next : ProtocolReader j n) × (receive j n r ≡ some (ok (some (m, next)))) × Reads next ms

  -- What is left after one message: chunks that hold `rest` behind what the buffer holds.
  pub record Left (r : ProtocolReader j n) (last : SecureReader n) (rest : List ℕ) : Type 0 where
    pub pending : List (List ℕ)
    pub delivers : Delivers n r.reader pending last
    pub holds : r.buffer ++ concat pending ≡ rest

  receive_loop-found :
      (m : Message Value) (fuel : ℕ) (r : ProtocolReader j n) (over : List ℕ)
      → IsSendable j m
      → r.buffer ≡ encode j m ++ over
      → receive_loop j n (suc fuel) r ≡ some (ok (some (m, record r { buffer = over })))
  unfolding receive_loop
  receive_loop-found m fuel r over s p =
      let whole : decode j r.buffer ≡ ok (some (m, length (encode j m))) =
        rw p (decode-encode j m over s.survives s.fits) in
      let left : drop (length (encode j m)) r.buffer ≡ over =
        rw p (drop-length-append (length (encode j m)) (encode j m) over refl) in
      ground (arith, whole, left)

  receive_loop-more :
      (m : Message Value) (fuel : ℕ) (r : ProtocolReader j n) (x : ℕ) (over : List ℕ)
      (chunk : List ℕ) (reader : SecureReader n)
      → IsSendable j m
      → encode j m ≡ r.buffer ++ (x ∷ over)
      → read_chunk n r.reader ≡ ok (some (chunk, reader))
      → receive_loop j n (suc fuel) r
        ≡ receive_loop j n fuel (record r { reader = reader; buffer = r.buffer ++ chunk })
  unfolding receive_loop
  receive_loop-more m fuel r x over chunk reader s p read =
      ground (arith, decode_prefix j m r.buffer x over s.fits p, read)

  pub receive_loop-whole :
      (m : Message Value) (fuel : ℕ) (r : ProtocolReader j n) (cs : List (List ℕ))
      (last : SecureReader n) (rest : List ℕ)
      → IsSendable j m
      → length r.reader.incoming < fuel
      → Delivers n r.reader cs last
      → r.buffer ++ concat cs ≡ encode j m ++ rest
      → (next : ProtocolReader j n) × (receive_loop j n fuel r ≡ some (ok (some (m, next))))
        × Left next last rest
  receive_loop-whole m zero r cs last rest s f d e = absurd (omega arith)
  receive_loop-whole m (suc fuel) r [] last rest s f d e =
      elim (overlap r.buffer [] (encode j m) rest e) [
        | inl (over, p, q) ↦ (
          record r { buffer = over },
          receive_loop-found m fuel r over s p,
          record { pending = []; delivers = d; holds = q },
        )
        | inr (x, over, p, q) ↦ cc
      ]
  receive_loop-whole m (suc fuel) r (c ∷ cs) last rest s f (reader, read, d) e =
      elim (overlap r.buffer (c ++ concat cs) (encode j m) rest e) [
        | inl (over, p, q) ↦ (
          record r { buffer = over },
          receive_loop-found m fuel r over s p,
          record { pending = c ∷ cs; delivers = (reader, read, d); holds = q },
        )
        | inr (x, over, p, q) ↦
            let (next, got, left) =
              receive_loop-whole m fuel (record r { reader = reader; buffer = r.buffer ++ c }) cs
                last rest s (omega (arith, read_chunk-shorter n r.reader reader c read)) d
                (append_assoc r.buffer c (concat cs) ∙ e) in
            (next, receive_loop-more m fuel r x over c reader s p read ∙ got, left)
      ]

  pub Reads-Delivers :
      (ms : List (Message Value)) (r : ProtocolReader j n) (cs : List (List ℕ))
      (last : SecureReader n)
      → All (IsSendable j) ms
      → Delivers n r.reader cs last
      → r.buffer ++ concat cs ≡ encode_all j ms
      → Reads r ms
  Reads-Delivers [] r cs last s d e = tt
  Reads-Delivers (m ∷ ms) r cs last (s, ss) d e =
      let (next, got, left) =
        receive_loop-whole m (suc (length r.reader.incoming)) r cs last (encode_all j ms) s
          (omega arith) d e in
      (
        next,
        unfold receive in got,
        Reads-Delivers ms next left.pending last ss left.delivers left.holds,
      )
