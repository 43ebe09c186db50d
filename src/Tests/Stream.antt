-- ===== src/Tests/Stream.antt =====
-- The messages of src/protocol.rs over the stream of src/secure.rs, at a session that does not
-- encrypt.
use bluecross.Base.{ℕ, ◌≡◌, refl, true, some, List, [], ◌∷◌, ◌++◌, ok, arith, All}
use bluecross.Secure.{SecureWriter, closed, max_chunk, write_all, write_chunks, put, write_chunk}
use bluecross.Secure.Chunks.{chunks, concat, IsChunk}
use bluecross.Secure.Stream.{Sends, write_all-Sends}
use bluecross.Secure.Handshake.{
  Socket, Agrees, derive_psk, channel, hs_frame, client_handshake, server_handshake,
  client_handshake-server_handshake,
}
use bluecross.Protocol.{Message}
use bluecross.Protocol.Codec.{encode}
use bluecross.Protocol.Reader.{ProtocolReader, Received, receive, send}
use bluecross.Protocol.Reader.Total.{receive-total}
use bluecross.Protocol.Reader.Delivery.{Reads}
use bluecross.Protocol.Reader.Session.{send_all, Reads-send_all}
use bluecross.Client.Reader.{reader_task}
use bluecross.Client.Reader.Delivered.{reader_task-send_all}
use bluecross.Tests.Flat.{flat}
use bluecross.Tests.Plain.{plain, plain-NoiseLaws}
use bluecross.Tests.Protocol.{press, hello, press-IsSendable, hello-IsSendable}

abbrev writer : SecureWriter plain
writer = record { written = []; accepts = λ before bytes. true; session = 0 }

abbrev messages : List (Message flat.Value)
messages = press ∷ hello ∷ []

abbrev text : List ℕ
text = 104 ∷ 105 ∷ []

write_all-Sends_example :
    Sends plain-NoiseLaws 3 (chunks max_chunk text) writer 0 (write_all plain writer text)
    × All (IsChunk max_chunk) (chunks max_chunk text)
    × (concat (chunks max_chunk text) ≡ text)
write_all-Sends_example =
    write_all-Sends plain-NoiseLaws 3 text writer 0 (λ before bytes. refl)
      (unfold plain-NoiseLaws in refl)

-- The two frames: a length, the encoded message, and the tag.
abbrev frames : List ℕ
frames =
    0 ∷ 28 ∷ 3 ∷ 0 ∷ 0 ∷ 0 ∷ 7 ∷ b'{' ∷ 1 ∷ 1 ∷ 30 ∷ 2 ∷ 1 ∷ 1 ∷ 0 ∷ 0 ∷ 0 ∷ 0 ∷ 0 ∷ 0 ∷ 0 ∷ 0 ∷ 0
    ∷ 0 ∷ 0 ∷ 0 ∷ 0 ∷ 0 ∷ 0 ∷ 0 ∷ 0 ∷ 25 ∷ 10 ∷ 0 ∷ 0 ∷ 0 ∷ 4 ∷ b'{' ∷ 10 ∷ 3 ∷ 15 ∷ 0 ∷ 0 ∷ 0 ∷ 0
    ∷ 0 ∷ 0 ∷ 0 ∷ 0 ∷ 0 ∷ 0 ∷ 0 ∷ 0 ∷ 0 ∷ 0 ∷ 0 ∷ 0 ∷ []

abbrev after : SecureWriter plain
after = record { written = frames; accepts = λ before bytes. true; session = 2 }

sends : send_all flat plain writer messages ≡ ok after
unfolding send_all send write_all write_chunks write_chunk put encode chunks
sends = refl

abbrev reader : ProtocolReader flat plain
reader = record {
  reader = record { incoming = frames ++ (7 ∷ []); ended_by = closed; session = 0 };
  buffer = [];
}

Reads-send_all_example : Reads {j = flat} {n = plain} reader messages
Reads-send_all_example =
    Reads-send_all flat plain-NoiseLaws messages writer after reader (7 ∷ [])
      (press-IsSendable, (hello-IsSendable, tt)) (λ before bytes. refl)
      (unfold plain-NoiseLaws in refl) refl sends refl refl

receive-total_example : (result : Received flat plain) × (receive flat plain reader ≡ some result)
receive-total_example = receive-total flat plain reader

abbrev key : List ℕ
key = 1 ∷ 2 ∷ 3 ∷ []

-- Both handshake messages are empty.
abbrev agreed : Agrees plain (derive_psk plain key)
agreed = record {
  i₀ = 0;
  i₁ = 0;
  i₂ = 0;
  r₀ = 0;
  r₁ = 0;
  r₂ = 0;
  first = [];
  second = [];
  initiator_session = 0;
  responder_session = 0;
  initiator = refl;
  responder = refl;
  writes_first = refl;
  reads_first = refl;
  writes_second = refl;
  reads_second = refl;
  initiator_ends = refl;
  responder_ends = refl;
  first_fits = omega arith;
  second_fits = omega arith;
}

abbrev socket : Socket
socket = record {
  incoming = hs_frame [] ++ (8 ∷ []);
  ended_by = closed;
  written = [];
  accepts = λ before bytes. true;
}

client_handshake-server_handshake_example :
    (client_handshake plain key socket
      ≡ ok (channel plain (record socket { incoming = 8 ∷ []; written = [] ++ hs_frame [] }) 0))
    × (server_handshake plain key socket
        ≡ ok (channel plain (record socket { incoming = 8 ∷ []; written = [] ++ hs_frame [] }) 0))
client_handshake-server_handshake_example =
    client_handshake-server_handshake plain key agreed socket socket (8 ∷ []) (8 ∷ [])
      (λ before bytes. refl) (λ before bytes. refl) refl refl

abbrev closed_reader : ProtocolReader flat plain
closed_reader = record {
  reader = record { incoming = frames; ended_by = closed; session = 0 };
  buffer = [];
}

reader_task-send_all_example : reader_task flat plain 3 closed_reader ≡ some messages
reader_task-send_all_example =
    reader_task-send_all flat plain-NoiseLaws 3 messages writer after closed_reader (omega arith)
      (press-IsSendable, (hello-IsSendable, tt)) (λ before bytes. refl)
      (unfold plain-NoiseLaws in refl) refl sends refl refl refl
