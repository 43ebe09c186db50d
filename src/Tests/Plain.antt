-- ===== src/Tests/Plain.antt =====
-- A Noise session that does not encrypt: it puts a tag of 16 zero bytes behind each plaintext.
use bluecross.Base.{
  ℕ, suc, ◌-◌, ◌≡◌, refl, some, List, [], ◌∷◌, ◌++◌, length, take, arith, length-append,
  take-length-append, ap,
}
use bluecross.Secure.Snow.{Noise, NoiseLaws}

abbrev tag : List ℕ
tag = 0 ∷ 0 ∷ 0 ∷ 0 ∷ 0 ∷ 0 ∷ 0 ∷ 0 ∷ 0 ∷ 0 ∷ 0 ∷ 0 ∷ 0 ∷ 0 ∷ 0 ∷ 0 ∷ []

abbrev pub plain : Noise
plain = record {
  Handshake = ℕ;
  Session = ℕ;
  sha256 = λ bytes. bytes;
  build_initiator = λ key. some 0;
  build_responder = λ key. some 0;
  write_handshake = λ h. some ([], h);
  read_handshake = λ h message. some h;
  into_transport_mode = λ h. some h;
  write_message = λ nonce plaintext. some (plaintext ++ tag, suc nonce);
  read_message = λ nonce ciphertext. some (take (length ciphertext - 16) ciphertext, suc nonce);
}

pub untag :
    (plaintext : List ℕ) → take (length (plaintext ++ tag) - 16) (plaintext ++ tag) ≡ plaintext
untag plaintext =
    take-length-append (length (plaintext ++ tag) - 16) plaintext tag
      (omega (arith, length-append plaintext tag))

-- Both sides count the messages.
unfoldable pub plain-NoiseLaws : NoiseLaws plain
plain-NoiseLaws = record {
  IsSynced = λ k a b. a ≡ b;
  transport = λ k a b plaintext same fits. (
    plaintext ++ tag,
    suc a,
    suc b,
    refl,
    ap (λ (p : List ℕ). some (p, suc b)) (untag plaintext),
    length-append plaintext tag,
    ap suc same,
  );
}
