-- ===== src/Client/Reader/Split.antt =====
-- src/protocol.rs: where the bytes of a buffer stop being whole messages.
use mathlib.Core.List.{append_assoc}
use bluecross.Base.{
  ℕ, ◌≤◌, ◌≡◌, refl, sym, ap, ◌∙◌, List, [], ◌∷◌, ◌++◌, length, arith, All, inl, inr,
}
use bluecross.Json.{Json}
use bluecross.Protocol.{Message}
use bluecross.Protocol.Buffer.{IsSendable, IsIncomplete, encode_all, next_buffered}
use bluecross.Protocol.Codec.{encode, decode}
use bluecross.Protocol.Codec.Prefixes.{decode_prefix}
use bluecross.Protocol.Reader.Delivery.{overlap}

module _ (j : Json) where
  open j use {Value}

  -- How the bytes of a buffer and what follows it fall into messages.
  pub record Split (ms : List (Message Value)) (buffer rest : List ℕ) : Type 0 where
    pub whole : List (Message Value)
    pub later : List (Message Value)
    pub tail : List ℕ
    pub messages : ms ≡ whole ++ later
    pub bytes : buffer ≡ encode_all j whole ++ tail
    pub cut : IsIncomplete j tail
    pub following : tail ++ rest ≡ encode_all j later
    pub whole_sendable : All (IsSendable j) whole
    pub later_sendable : All (IsSendable j) later
    pub fewer : length later ≤ length ms

  pub empty-IsIncomplete : IsIncomplete j []
  unfolding next_buffered decode
  empty-IsIncomplete = refl

  prefix-IsIncomplete :
      (m : Message Value) (front : List ℕ) (x : ℕ) (over : List ℕ)
      → IsSendable j m
      → encode j m ≡ front ++ (x ∷ over)
      → IsIncomplete j front
  prefix-IsIncomplete m front x over s p =
      ap (next_buffered j front) (decode_prefix j m front x over s.fits p)
      ∙ (unfold next_buffered in refl)

  pub Split-buffer :
      (ms : List (Message Value)) (buffer rest : List ℕ)
      → All (IsSendable j) ms
      → buffer ++ rest ≡ encode_all j ms
      → Split ms buffer rest
  Split-buffer [] [] rest s e = record {
    whole = [];
    later = [];
    tail = [];
    messages = refl;
    bytes = refl;
    cut = empty-IsIncomplete;
    following = e;
    whole_sendable = tt;
    later_sendable = tt;
    fewer = omega arith;
  }
  Split-buffer [] (b ∷ bs) rest s e = cc
  Split-buffer (m ∷ ms) buffer rest (s, ss) e =
      elim (overlap buffer rest (encode j m) (encode_all j ms) e) [
        | inl (over, p, q) ↦
            let k = Split-buffer ms over rest ss q in
            record {
              whole = m ∷ k.whole;
              later = k.later;
              tail = k.tail;
              messages = ap (◌∷◌ m) k.messages;
              bytes =
                  p
                  ∙ ap (λ (b : List ℕ). encode j m ++ b) k.bytes
                  ∙ sym (append_assoc (encode j m) (encode_all j k.whole) k.tail);
              cut = k.cut;
              following = k.following;
              whole_sendable = (s, k.whole_sendable);
              later_sendable = k.later_sendable;
              fewer = omega (arith, k.fewer);
            }
        | inr (x, over, p, q) ↦ record {
          whole = [];
          later = m ∷ ms;
          tail = buffer;
          messages = refl;
          bytes = refl;
          cut = prefix-IsIncomplete m buffer x over s p;
          following = e;
          whole_sendable = tt;
          later_sendable = (s, ss);
          fewer = omega arith;
        }
      ]
