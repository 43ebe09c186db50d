-- ===== src/Secure/Snow.antt =====
-- What src/secure.rs relies on of the crates `snow` and `sha2`, as interfaces.
use bluecross.Base.{ℕ, suc, ◌+◌, ◌≤◌, ◌≡◌, Option, some, List, length}

-- `HandshakeState`, `TransportState` and `Sha256`. A call that returns an error is `none`.
pub record Noise : Type 1 where
  pub Handshake : Type 0
  pub Session : Type 0
  pub sha256 : List ℕ → List ℕ
  pub build_initiator : List ℕ → Option Handshake
  pub build_responder : List ℕ → Option Handshake
  pub write_handshake : Handshake → Option (List ℕ × Handshake)
  pub read_handshake : Handshake → List ℕ → Option Handshake
  pub into_transport_mode : Handshake → Option Session
  pub write_message : Session → List ℕ → Option (List ℕ × Session)
  pub read_message : Session → List ℕ → Option (List ℕ × Session)

-- The transport phase: `IsSynced k a b` says that `b` is ready to decrypt what `a` encrypts next,
-- with nonces left for `k` messages. A plaintext that leaves room for the tag is encrypted to its
-- own length and the tag, and the other side decrypts it.
pub record NoiseLaws (n : Noise) : Type 1 where
  pub IsSynced : ℕ → n.Session → n.Session → Type 0
  pub transport :
      (k : ℕ) (a b : n.Session) (plaintext : List ℕ)
      → IsSynced (suc k) a b
      → length plaintext + 16 ≤ 65535
      → (ciphertext : List ℕ) × (a' : n.Session) × (b' : n.Session) × (n.write_message a plaintext
          ≡ some (ciphertext, a'))
        × (n.read_message b ciphertext ≡ some (plaintext, b'))
        × (length ciphertext ≡ length plaintext + 16)
        × IsSynced k a' b'
