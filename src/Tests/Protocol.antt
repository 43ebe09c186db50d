-- ===== src/Tests/Protocol.antt =====
-- src/protocol.rs at concrete messages.
use bluecross.Base.{
  ℕ, zero, suc, ◌≡◌, refl, none, some, List, [], ◌∷◌, ◌++◌, pos, length, arith, ok, err,
}
use bluecross.Json.{Json}
use bluecross.Protocol.{Message, MessageType}
use bluecross.Protocol.Codec.{payload_too_long, encode, decode}
use bluecross.Protocol.Codec.Frames.{payload_size, decode-encode, decode_oversized}
use bluecross.Protocol.Codec.Prefixes.{decode_prefix}
use bluecross.Protocol.Buffer.{
  IsSendable, IsIncomplete, encode_all, next_buffered, receive_all_buffered,
  receive_all_buffered-encode_all,
}
use bluecross.Tests.Flat.{flat}

abbrev pub press : Message flat.Value
press = record {
  msg_type = MessageType.key_event;
  payload = flat.object (("code", flat.number (pos 30)) ∷ ("value", flat.number (pos 1)) ∷ []);
}

abbrev pub hello : Message flat.Value
hello = record {
  msg_type = MessageType.clipboard_data;
  payload = flat.object (("content", flat.string "hello") ∷ []);
}

pub press-IsSendable : IsSendable flat press
press-IsSendable = record { survives = refl; fits = omega arith }

pub hello-IsSendable : IsSendable flat hello
hello-IsSendable = record { survives = refl; fits = omega arith }

decode-encode_example :
    decode flat (encode flat press ++ (1 ∷ 2 ∷ [])) ≡ ok (some (press, length (encode flat press)))
decode-encode_example = decode-encode flat press (1 ∷ 2 ∷ []) refl (omega arith)

-- The encoding of `press`, and its first seven bytes.
abbrev front : List ℕ
front = 3 ∷ 0 ∷ 0 ∷ 0 ∷ 7 ∷ b'{' ∷ 1 ∷ []

abbrev back : List ℕ
back = 30 ∷ 2 ∷ 1 ∷ 1 ∷ []

encode-press : encode flat press ≡ front ++ (1 ∷ back)
unfolding encode
encode-press = refl

decode_prefix_example : decode flat front ≡ ok none
decode_prefix_example = decode_prefix flat press front 1 back (omega arith) encode-press

front-IsIncomplete : IsIncomplete flat front
unfolding decode next_buffered
front-IsIncomplete = refl

receive_all_buffered-encode_all_example :
    receive_all_buffered flat (encode_all flat (press ∷ hello ∷ []) ++ front)
    ≡ (press ∷ hello ∷ [], front)
receive_all_buffered-encode_all_example =
    receive_all_buffered-encode_all flat (press ∷ hello ∷ []) front
      (press-IsSendable, (hello-IsSendable, tt)) front-IsIncomplete

unfoldable replicate : ℕ → List ℕ
replicate zero = []
replicate (suc n) = 0 ∷ replicate n

length-replicate : (n : ℕ) → length (replicate n) ≡ n
unfolding replicate
length-replicate zero = refl
length-replicate (suc n) = omega (arith, length-replicate n)

-- A JSON of numbers alone, each written as so many zeros.
abbrev unary : Json
unary = record {
  Value = ℕ;
  object = λ fields. 0;
  string = λ s. 0;
  number = λ z. 0;
  get = λ v k. none;
  as_str = λ v. none;
  as_i64 = λ v. none;
  to_vec = replicate;
  from_slice = λ bytes. some (length bytes);
}

abbrev huge : Message ℕ
huge = record { msg_type = MessageType.clipboard_data; payload = 20_000_000 }

decode_oversized_example :
    decode unary (encode unary huge ++ []) ≡ err (payload_too_long (payload_size unary huge))
decode_oversized_example =
    decode_oversized unary huge [] (omega (arith, length-replicate 20_000_000))
      (omega (arith, length-replicate 20_000_000))
