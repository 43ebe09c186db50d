-- ===== src/Tests/Connection.antt =====
-- The application handshake at a concrete client.
use bluecross.Base.{◌≡◌, refl, [], ◌∷◌, pos, some, ok, err, Result, arith, true}
use bluecross.Base.Maps.{lookup}
use bluecross.Config.{left, as_str, ServerConfig, ClientConfig}
use bluecross.Client.State.{new}
use bluecross.Protocol.{Message}
use bluecross.Protocol.Builders
use bluecross.Protocol.Codec.{encode}
use bluecross.Protocol.Reader.{ProtocolReader, send}
use bluecross.Secure.{SecureWriter, SecureError, closed, write_all, write_chunks, write_chunk, put}
use bluecross.Secure.Chunks.{chunks}
use bluecross.Connection.{ack_of, accept_client, join_server}
use bluecross.Connection.Agreement.{AreI32, hello_of, registration_of, accept_client-join_server}
use bluecross.Tests.Flat.{flat, flat-JsonLaws}
use bluecross.Tests.Plain.{plain}

abbrev pub server : ServerConfig
server = record {
  host = "0.0.0.0";
  port = 5678;
  screen_width = pos 1920;
  screen_height = pos 1080;
  edge_threshold = pos 2;
  clipboard_sharing = true;
  psk = "correct horse battery";
  clients = ("laptop", left) ∷ [];
}

abbrev client : ClientConfig
client = record {
  server_host = "10.0.0.1";
  server_port = 5678;
  screen_width = pos 1366;
  screen_height = pos 768;
  name = "laptop";
  clipboard_sharing = true;
  psk = "correct horse battery";
}

abbrev pub writer : SecureWriter plain
writer = record { written = []; accepts = λ before bytes. true; session = 0 }

abbrev reader : ProtocolReader flat plain
reader = record { reader = record { incoming = []; ended_by = closed; session = 0 }; buffer = [] }

abbrev pub after : Result SecureError (SecureWriter plain) → SecureWriter plain
after (ok w) = w
after (err e) = writer

abbrev ack : Message flat.Value
ack = ack_of flat server (registration_of client left)

hello-sent :
    send flat plain writer (hello_of flat client)
    ≡ ok (after (send flat plain writer (hello_of flat client)))
unfolding send write_all write_chunks write_chunk put encode chunks Builders.handshake
hello-sent = refl

ack-sent : send flat plain writer ack ≡ ok (after (send flat plain writer ack))
unfolding send write_all write_chunks write_chunk put encode chunks Builders.handshake_ack as_str
ack-sent = refl

server_sizes : AreI32 (pos 1920) (pos 1080)
server_sizes = record {
  width_i32 = record { low = omega arith; high = omega arith };
  height_i32 = record { low = omega arith; high = omega arith };
}

client_sizes : AreI32 (pos 1366) (pos 768)
client_sizes = record {
  width_i32 = record { low = omega arith; high = omega arith };
  height_i32 = record { low = omega arith; high = omega arith };
}

accept_client-join_server_example :
    (accept_client flat plain server (some (ok (some (hello_of flat client, reader)))) writer
      ≡ ok (registration_of client left, reader, after (send flat plain writer ack)))
    × (join_server flat plain client 1 2 writer (λ w. ok (some (ack, reader)))
        ≡ ok (
          record (new client 1 2) {
            position = some left;
            server_width = pos 1920;
            server_height = pos 1080;
          },
          reader,
          after (send flat plain writer (hello_of flat client)),
        ))
accept_client-join_server_example =
    accept_client-join_server flat-JsonLaws plain server client left 1 2 reader reader writer
      (after (send flat plain writer ack)) writer
      (after (send flat plain writer (hello_of flat client))) server_sizes client_sizes
      (unfold lookup in refl) hello-sent ack-sent
