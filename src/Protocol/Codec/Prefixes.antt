-- ===== src/Protocol/Codec/Prefixes.antt =====
-- src/protocol.rs: `decode` on a buffer that holds less, or more, than one message.
use bluecross.Base.{
  ℕ, suc, ◌+◌, ◌≤◌, ◌<◌, ◌≡◌, refl, ap, none, some, List, [], ◌∷◌, ◌++◌, length, arith,
  length-append, take-append, ok, ge→ltb, lt→ltb,
}
use bluecross.Json.{Json}
use bluecross.Protocol.{Message}
use bluecross.Protocol.Codec.{max_payload, header_len, from_be_bytes, encode, decode, decode_body}
use bluecross.Protocol.Codec.Frames.{payload_size, from_be_bytes-to_be_bytes}

module _ (j : Json) where
  open j use {Value, to_vec}

  decode_body-short :
      (t n : ℕ) (body : List ℕ)
      → n ≤ max_payload
      → length body < n
      → decode_body j t n body ≡ ok none
  unfolding decode_body
  decode_body-short t n body h k = rw (ge→ltb max_payload n h, lt→ltb (length body) n k)

  -- `decode` asks for more bytes on every proper prefix of an encoding whose payload is at most
  -- `MAX_PAYLOAD` long: it neither fails nor returns a message.
  pub decode_prefix :
      (m : Message Value) (front : List ℕ) (x : ℕ) (back : List ℕ)
      → payload_size j m ≤ max_payload
      → encode j m ≡ front ++ (x ∷ back)
      → decode j front ≡ ok none
  unfolding decode encode
  decode_prefix m [] x back h e = refl
  decode_prefix m (t ∷ []) x back h e = refl
  decode_prefix m (t ∷ a ∷ []) x back h e = refl
  decode_prefix m (t ∷ a ∷ b ∷ []) x back h e = refl
  decode_prefix m (t ∷ a ∷ b ∷ c ∷ []) x back h e = refl
  decode_prefix m (t ∷ a ∷ b ∷ c ∷ d ∷ body) x back h e =
      let size : payload_size j m ≡ suc (length body + length back) =
        omega (arith, ap length e, length-append body (x ∷ back)) in
      let announced : from_be_bytes a b c d ≡ payload_size j m =
        ground (arith, from_be_bytes-to_be_bytes (payload_size j m)) in
      decode_body-short t (from_be_bytes a b c d) body (omega arith) (omega arith)

  -- A message that `decode` returns took at least its header, at most the buffer, and a payload of
  -- at most `MAX_PAYLOAD` bytes.
  pub decode_takes :
      (buffer : List ℕ) (m : Message Value) (n : ℕ)
      → decode j buffer ≡ ok (some (m, n))
      → (header_len ≤ n) × (n ≤ length buffer) × (n ≤ header_len + max_payload)
  unfolding decode decode_body
  decode_takes (t ∷ a ∷ b ∷ c ∷ d ∷ body) m n e = ground arith
  decode_takes _ m n e = cc

  -- Bytes that arrive later do not change a message that is already complete.
  pub decode-append :
      (buffer more : List ℕ) (m : Message Value) (n : ℕ)
      → decode j buffer ≡ ok (some (m, n))
      → decode j (buffer ++ more) ≡ ok (some (m, n))
  unfolding decode decode_body
  decode-append (t ∷ a ∷ b ∷ c ∷ d ∷ body) more m n e =
      ground (arith, length-append body more, take-append (from_be_bytes a b c d) body more)
  decode-append _ more m n e = cc
