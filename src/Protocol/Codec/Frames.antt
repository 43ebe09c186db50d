-- ===== src/Protocol/Codec/Frames.antt =====
-- src/protocol.rs: what `decode` makes of the bytes that `encode` wrote.
use bluecross.Base.{
  ℕ, ◌+◌, ◌/◌, ◌%◌, ◌^◌, ◌≤◌, ◌<◌, ◌≡◌, refl, ◌∙◌, ap, some, List, ◌++◌, length, arith,
  length-append, take-length-append, ok, err, ge→ltb, lt→ltb,
}
use bluecross.Json.{Json, Survives}
use bluecross.Protocol.{Message, type_byte, from_u8-type_byte}
use bluecross.Protocol.Codec.{
  max_payload, header_len, payload_too_long, from_be_bytes, encode, decode, decode_body,
  decode_payload,
}

pub from_be_bytes-to_be_bytes :
    (n : ℕ)
    → n < 2 ^ 32
    → from_be_bytes (n / 2 ^ 24 % 256) (n / 2 ^ 16 % 256) (n / 2 ^ 8 % 256) (n % 256) ≡ n
unfolding from_be_bytes
from_be_bytes-to_be_bytes n h = omega arith

module _ (j : Json) where
  open j use {Value, to_vec}

  abbrev pub payload_size : Message Value → ℕ
  payload_size m = length (to_vec m.payload)

  pub length-encode : (m : Message Value) → length (encode j m) ≡ header_len + payload_size m
  unfolding encode
  length-encode m = omega arith

  -- `decode` hands over the header's three parts.
  pub decode_header :
      (m : Message Value) (rest : List ℕ)
      → payload_size m < 2 ^ 32
      → decode j (encode j m ++ rest)
        ≡ decode_body j (type_byte m.msg_type) (payload_size m) (to_vec m.payload ++ rest)
  unfolding decode encode
  decode_header m rest h =
      ap (λ n. decode_body j (type_byte m.msg_type) n (to_vec m.payload ++ rest))
        (omega (arith, from_be_bytes-to_be_bytes (payload_size m % 2 ^ 32)))

  decode_payload-Survives :
      (m : Message Value)
      → Survives j m.payload
      → decode_payload j m.msg_type (to_vec m.payload) ≡ ok m
  unfolding decode_payload
  decode_payload-Survives m s = rw (s, decode_payload)

  decode_body-whole :
      (m : Message Value) (rest : List ℕ)
      → Survives j m.payload
      → payload_size m ≤ max_payload
      → decode_body j (type_byte m.msg_type) (payload_size m) (to_vec m.payload ++ rest)
        ≡ ok (some (m, header_len + payload_size m))
  unfolding decode_body
  decode_body-whole m rest s h = rw (
    ge→ltb max_payload (payload_size m) h,
    ge→ltb (length (to_vec m.payload ++ rest)) (payload_size m)
        (omega (arith, length-append (to_vec m.payload) rest)),
    from_u8-type_byte m.msg_type,
    take-length-append (payload_size m) (to_vec m.payload) rest refl,
    decode_payload-Survives m s,
  )

  -- A message whose payload is at most `MAX_PAYLOAD` long, and is one that the JSON parser reads
  -- back, decodes from its own encoding, whatever bytes follow, and `decode` counts exactly the
  -- bytes that `encode` wrote.
  pub decode-encode :
      (m : Message Value) (rest : List ℕ)
      → Survives j m.payload
      → payload_size m ≤ max_payload
      → decode j (encode j m ++ rest) ≡ ok (some (m, length (encode j m)))
  decode-encode m rest s h =
      rw (length-encode m) (decode_header m rest (omega arith) ∙ decode_body-whole m rest s h)

  -- `encode` puts no bound on the payload. One that is longer than `MAX_PAYLOAD` and shorter than
  -- 4 GiB is refused by the receiver as soon as the header is there, whatever follows.
  pub decode_oversized :
      (m : Message Value) (rest : List ℕ)
      → max_payload < payload_size m
      → payload_size m < 2 ^ 32
      → decode j (encode j m ++ rest) ≡ err (payload_too_long (payload_size m))
  decode_oversized m rest h k =
      decode_header m rest k ∙ (unfold decode_body in rw (lt→ltb max_payload (payload_size m) h))
