-- ===== src/Secure/Handshake.antt =====
-- src/secure.rs: the two sides of the handshake.
use mathlib.Core.List.{append_assoc}
use bluecross.Base.{
  ℕ, ◌/◌, ◌%◌, ◌^◌, ◌<◌, ◌≡◌, Bool, true, Option, none, some, List, [], ◌∷◌, ◌++◌, ltb, length,
  take, drop, arith, length-append, take-length-append, drop-length-append, Result, ok, err, try,
  if◌then◌else◌,
}
use bluecross.Secure.Snow.{Noise}
use bluecross.Secure.{
  StreamEnd, SecureError, noise_error, io_error, cut_off, u16_to_be_bytes, u16_from_be_bytes,
  SecureReader, SecureWriter,
}

-- Both halves of a TCP stream: the bytes to come, and the bytes handed over so far.
pub record Socket : Type 0 where
  pub incoming : List ℕ
  pub ended_by : StreamEnd
  pub written : List ℕ
  pub accepts : List ℕ → List ℕ → Bool

unfoldable pub put_socket : Socket → List ℕ → Result SecureError Socket
put_socket s bytes =
    if s.accepts s.written bytes
    then ok (record s { written = s.written ++ bytes })
    else err io_error

unfoldable pub write_hs : Socket → List ℕ → Result SecureError Socket
unfolding put_socket
write_hs s message =
    try (put_socket s (u16_to_be_bytes (length message % 2 ^ 16))) (λ t. put_socket t message)

-- The message and the socket behind it.
unfoldable pub read_hs_bytes : Socket → List ℕ → Result SecureError (List ℕ × Socket)
read_hs_bytes s (a ∷ b ∷ rest) =
    let n = u16_from_be_bytes a b in
    if ltb (length rest) n
    then err (cut_off s.ended_by)
    else ok (take n rest, record s { incoming = drop n rest })
read_hs_bytes s _ = err (cut_off s.ended_by)

unfoldable pub read_hs : Socket → Result SecureError (List ℕ × Socket)
unfolding read_hs_bytes
read_hs s = read_hs_bytes s s.incoming

abbrev pub or_noise_error : {A : Type 0} → Option A → Result SecureError A
or_noise_error none = err noise_error
or_noise_error (some a) = ok a

-- `b"bluecross-noise-psk-v1"`
abbrev pub psk_label : List ℕ
psk_label =
    b'b' ∷ b'l' ∷ b'u' ∷ b'e' ∷ b'c' ∷ b'r' ∷ b'o' ∷ b's' ∷ b's' ∷ b'-' ∷ b'n' ∷ b'o' ∷ b'i' ∷ b's'
    ∷ b'e' ∷ b'-' ∷ b'p' ∷ b's' ∷ b'k' ∷ b'-' ∷ b'v' ∷ b'1' ∷ []

module _ (n : Noise) where
  -- The key is the digest of the label and the bytes of the configured text.
  unfoldable pub derive_psk : List ℕ → List ℕ
  derive_psk psk = n.sha256 (psk_label ++ psk)

  abbrev pub channel : Socket → n.Session → SecureReader n × SecureWriter n
  channel s session = (
    record { incoming = s.incoming; ended_by = s.ended_by; session = session },
    record { written = s.written; accepts = s.accepts; session = session },
  )

  unfoldable pub client_handshake :
      List ℕ → Socket → Result SecureError (SecureReader n × SecureWriter n)
  unfolding write_hs read_hs derive_psk
  client_handshake psk s = try (or_noise_error (n.build_initiator (derive_psk psk))) λ hs.
      try (or_noise_error (n.write_handshake hs)) λ sent. try (write_hs s sent.0) λ t.
        try (read_hs t) λ got. try (or_noise_error (n.read_handshake sent.1 got.0)) λ last.
          try (or_noise_error (n.into_transport_mode last)) λ session. ok (channel got.1 session)

  unfoldable pub server_handshake :
      List ℕ → Socket → Result SecureError (SecureReader n × SecureWriter n)
  unfolding write_hs read_hs derive_psk
  server_handshake psk s = try (or_noise_error (n.build_responder (derive_psk psk))) λ hs.
      try (read_hs s) λ got. try (or_noise_error (n.read_handshake hs got.0)) λ next.
        try (or_noise_error (n.write_handshake next)) λ sent.
          try (write_hs got.1 sent.0) λ t.
            try (or_noise_error (n.into_transport_mode sent.1)) λ session. ok (channel t session)

  -- What the Noise pattern does with one key: the initiator's message is read by the responder, and
  -- the responder's answer by the initiator, and each message fits its length field.
  pub record Agrees (key : List ℕ) : Type 0 where
    pub i₀ : n.Handshake
    pub i₁ : n.Handshake
    pub i₂ : n.Handshake
    pub r₀ : n.Handshake
    pub r₁ : n.Handshake
    pub r₂ : n.Handshake
    pub first : List ℕ
    pub second : List ℕ
    pub initiator_session : n.Session
    pub responder_session : n.Session
    pub initiator : n.build_initiator key ≡ some i₀
    pub responder : n.build_responder key ≡ some r₀
    pub writes_first : n.write_handshake i₀ ≡ some (first, i₁)
    pub reads_first : n.read_handshake r₀ first ≡ some r₁
    pub writes_second : n.write_handshake r₁ ≡ some (second, r₂)
    pub reads_second : n.read_handshake i₁ second ≡ some i₂
    pub initiator_ends : n.into_transport_mode i₂ ≡ some initiator_session
    pub responder_ends : n.into_transport_mode r₂ ≡ some responder_session
    pub first_fits : length first < 2 ^ 16
    pub second_fits : length second < 2 ^ 16

abbrev AcceptsAll : Socket → Type 0
AcceptsAll s = (before bytes : List ℕ) → s.accepts before bytes ≡ true

unfoldable pub hs_frame : List ℕ → List ℕ
hs_frame message = u16_to_be_bytes (length message % 2 ^ 16) ++ message

write_hs-hs_frame :
    (s : Socket) (message : List ℕ)
    → AcceptsAll s
    → write_hs s message ≡ ok (record s { written = s.written ++ hs_frame message })
unfolding write_hs hs_frame
write_hs-hs_frame s message all =
    let size = u16_to_be_bytes (length message % 2 ^ 16) in
    ground (
      arith,
      all s.written size,
      all (s.written ++ size) message,
      append_assoc s.written size message,
    )

read_hs-hs_frame :
    (s : Socket) (message more : List ℕ)
    → s.incoming ≡ hs_frame message ++ more
    → length message < 2 ^ 16
    → read_hs s ≡ ok (message, record s { incoming = more })
unfolding read_hs hs_frame
read_hs-hs_frame s message more i h =
    let size = length message in
    let n = u16_from_be_bytes (size % 2 ^ 16 / 256 % 256) (size % 2 ^ 16 % 256) in
    rw i (
      ground (
        arith,
        length-append message more,
        take-length-append n message more,
        drop-length-append n message more,
      ))

module _ (n : Noise) (psk : List ℕ) (a : Agrees n (derive_psk n psk)) where
  -- With one key on both sides, and sockets that take every byte, the client's handshake succeeds
  -- on the server's answer, and leaves what follows the answer to the channel.
  client_handshake-Agrees :
      (s : Socket) (more : List ℕ)
      → AcceptsAll s
      → s.incoming ≡ hs_frame a.second ++ more
      → client_handshake n psk s
        ≡ ok (
            channel n
              (record s { incoming = more; written = s.written ++ hs_frame a.first })
              a.initiator_session)
  unfolding client_handshake
  client_handshake-Agrees s more all i = rw (
    a.initiator,
    a.writes_first,
    write_hs-hs_frame s a.first all,
    read_hs-hs_frame (record s { written = s.written ++ hs_frame a.first }) a.second more i
        a.second_fits,
    a.reads_second,
    a.initiator_ends,
  )

  -- So does the server's on the client's message, which it answers once.
  server_handshake-Agrees :
      (s : Socket) (more : List ℕ)
      → AcceptsAll s
      → s.incoming ≡ hs_frame a.first ++ more
      → server_handshake n psk s
        ≡ ok (
            channel n
              (record s { incoming = more; written = s.written ++ hs_frame a.second })
              a.responder_session)
  unfolding server_handshake
  server_handshake-Agrees s more all i = rw (
    a.responder,
    read_hs-hs_frame s a.first more i a.first_fits,
    a.reads_first,
    a.writes_second,
    write_hs-hs_frame (record s { incoming = more }) a.second all,
    a.responder_ends,
  )

  -- With one key on both sides, sockets that take every byte, and on each side the other side's
  -- message at the front, both handshakes succeed: each writes its one message and leaves what
  -- follows the other's to the channel. That the crate's two ends agree under the key is a
  -- condition.
  pub client_handshake-server_handshake :
      (client server : Socket) (more rest : List ℕ)
      → AcceptsAll client
      → AcceptsAll server
      → client.incoming ≡ hs_frame a.second ++ more
      → server.incoming ≡ hs_frame a.first ++ rest
      → (client_handshake n psk client
          ≡ ok (
              channel n
                (record client { incoming = more; written = client.written ++ hs_frame a.first })
                a.initiator_session))
        × (server_handshake n psk server
            ≡ ok (
                channel n
                  (record server { incoming = rest; written = server.written ++ hs_frame a.second })
                  a.responder_session))
  client_handshake-server_handshake client server more rest takes all from_server from_client = (
    client_handshake-Agrees client more takes from_server,
    server_handshake-Agrees server rest all from_client,
  )
