-- ===== src/Secure.antt =====
-- src/secure.rs: the encrypted byte stream. The Noise session (crate `snow`), the digest (crate
-- `sha2`) and the socket are not part of the repository: the first two are the interface `Noise`,
-- and a socket is the bytes that it delivers or accepts, and how it ends. The two halves of a
-- connection share one session under a lock, and use separate parts of it: each has its own here.
pub mod Snow
pub mod Chunks
pub mod Handshake
pub mod Stream
use bluecross.Base.{
  ℕ, ◌+◌, ◌-◌, ◌*◌, ◌/◌, ◌%◌, ◌^◌, Bool, Option, none, some, List, [], ◌∷◌, ◌++◌, ltb, length, take,
  drop, Result, ok, err, try, ◌==◌, if◌then◌else◌,
}
use Snow.{Noise}
use Chunks.{chunks}

abbrev pub tag_len : ℕ
tag_len = 16

abbrev pub max_noise_msg : ℕ
max_noise_msg = 65535

abbrev pub max_chunk : ℕ
max_chunk = max_noise_msg - tag_len

-- How the incoming bytes end: the peer closed the connection, or reading failed.
pub data StreamEnd : Type 0 where
  closed broken : StreamEnd

pub data SecureError : Type 0 where
  unexpected_eof io_error empty_frame noise_error : SecureError

-- `u16::to_be_bytes` and `u16::from_be_bytes`
abbrev pub u16_to_be_bytes : ℕ → List ℕ
u16_to_be_bytes n = n / 256 % 256 ∷ n % 256 ∷ []

abbrev pub u16_from_be_bytes : ℕ → ℕ → ℕ
u16_from_be_bytes a b = a * 256 + b

-- `read_exact` past the end of the bytes.
abbrev pub cut_off : StreamEnd → SecureError
cut_off closed = unexpected_eof
cut_off broken = io_error

module _ (n : Noise) where
  open n use {Session, write_message, read_message}

  -- The bytes that the socket has still to deliver.
  pub record SecureReader : Type 0 where
    pub incoming : List ℕ
    pub ended_by : StreamEnd
    pub session : Session

  -- The bytes handed to the socket so far, and whether it takes more after those.
  pub record SecureWriter : Type 0 where
    pub written : List ℕ
    pub accepts : List ℕ → List ℕ → Bool
    pub session : Session

  unfoldable pub decrypt_frame :
      SecureReader → List ℕ → List ℕ → Result SecureError (Option (List ℕ × SecureReader))
  decrypt_frame r ciphertext rest = elim (read_message r.session ciphertext) [
    | none ↦ err noise_error
    | some (plaintext, session) ↦
        ok (some (plaintext, record r { incoming = rest; session = session }))
  ]

  unfoldable pub read_frame :
      SecureReader → ℕ → List ℕ → Result SecureError (Option (List ℕ × SecureReader))
  unfolding decrypt_frame
  read_frame r size rest =
      if size == 0
      then err empty_frame
      else if ltb (length rest) size
      then err (cut_off r.ended_by)
      else decrypt_frame r (take size rest) (drop size rest)

  unfoldable pub end_of_frames : StreamEnd → Result SecureError (Option (List ℕ × SecureReader))
  end_of_frames closed = ok none
  end_of_frames broken = err io_error

  unfoldable pub read_bytes :
      SecureReader → List ℕ → Result SecureError (Option (List ℕ × SecureReader))
  unfolding read_frame end_of_frames
  read_bytes r (a ∷ b ∷ rest) = read_frame r (u16_from_be_bytes a b) rest
  read_bytes r _ = end_of_frames r.ended_by

  -- The new reader stands beside the plaintext; after an error or the end nobody reads again.
  unfoldable pub read_chunk : SecureReader → Result SecureError (Option (List ℕ × SecureReader))
  unfolding read_bytes
  read_chunk r = read_bytes r r.incoming

  unfoldable pub put : SecureWriter → List ℕ → Result SecureError SecureWriter
  put w bytes =
      if w.accepts w.written bytes
      then ok (record w { written = w.written ++ bytes })
      else err io_error

  unfoldable pub write_chunk : SecureWriter → List ℕ → Result SecureError SecureWriter
  unfolding put
  write_chunk w chunk = elim (write_message w.session chunk) [
    | none ↦ err noise_error
    | some (ciphertext, session) ↦
        try (put (record w { session = session }) (u16_to_be_bytes (length ciphertext % 2 ^ 16)))
          (λ v. put v ciphertext)
  ]

  unfoldable pub write_chunks : SecureWriter → List (List ℕ) → Result SecureError SecureWriter
  write_chunks w [] = ok w
  write_chunks w (chunk ∷ more) = try (write_chunk w chunk) (λ v. write_chunks v more)

  unfoldable pub write_all : SecureWriter → List ℕ → Result SecureError SecureWriter
  write_all w plaintext = write_chunks w (chunks max_chunk plaintext)
