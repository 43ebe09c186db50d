-- ===== src/Protocol/Codec.antt =====
-- src/protocol.rs: `Message::encode` and `Message::decode`.
pub mod Frames
pub mod Prefixes
use bluecross.Base.{
  ℕ, ◌+◌, ◌*◌, ◌/◌, ◌%◌, ◌^◌, ◌≡◌, Option, none, some, List, [], ◌∷◌, ◌++◌, ltb, length, take,
  Result, ok, err, if◌then◌else◌,
}
use bluecross.Json.{Json}
use bluecross.Protocol.{MessageType, Message, type_byte, from_u8}

abbrev pub max_payload : ℕ
max_payload = 16 * 1024 * 1024

abbrev pub header_len : ℕ
header_len = 5

pub data DecodeError : Type 0 where
  payload_too_long : ℕ → DecodeError
  invalid_message_type : ℕ → DecodeError
  invalid_json : DecodeError

-- `u32::to_be_bytes` and `u32::from_be_bytes`
unfoldable pub to_be_bytes : ℕ → List ℕ
to_be_bytes n = n / 2 ^ 24 % 256 ∷ n / 2 ^ 16 % 256 ∷ n / 2 ^ 8 % 256 ∷ n % 256 ∷ []

unfoldable pub from_be_bytes : ℕ → ℕ → ℕ → ℕ → ℕ
from_be_bytes a b c d = a * 2 ^ 24 + b * 2 ^ 16 + c * 2 ^ 8 + d

module _ (j : Json) where
  open j use {Value, to_vec, from_slice}

  unfoldable pub encode : Message Value → List ℕ
  unfolding to_be_bytes type_byte
  encode m =
      let payload_bytes = to_vec m.payload in
      type_byte m.msg_type ∷ to_be_bytes (length payload_bytes % 2 ^ 32) ++ payload_bytes

  unfoldable pub decode_payload : MessageType → List ℕ → Result DecodeError (Message Value)
  decode_payload t bytes = elim (from_slice bytes) [
    | none ↦ err invalid_json
    | some v ↦ ok (record { msg_type = t; payload = v })
  ]

  unfoldable pub decode_body : ℕ → ℕ → List ℕ → Result DecodeError (Option (Message Value × ℕ))
  unfolding decode_payload
  decode_body t payload_len body =
      if ltb max_payload payload_len
      then err (payload_too_long payload_len)
      else if ltb (length body) payload_len
      then ok none
      else elim (from_u8 t) [
        | none ↦ err (invalid_message_type t)
        | some msg_type ↦ elim (decode_payload msg_type (take payload_len body)) [
          | err e ↦ err e
          | ok m ↦ ok (some (m, header_len + payload_len))
        ]
      ]

  -- The pattern of five bytes is the test on `HEADER_LEN`; `body` is what follows the header.
  unfoldable pub decode : List ℕ → Result DecodeError (Option (Message Value × ℕ))
  unfolding decode_body from_be_bytes
  decode (t ∷ a ∷ b ∷ c ∷ d ∷ body) = decode_body t (from_be_bytes a b c d) body
  decode _ = ok none
