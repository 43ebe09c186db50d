-- ===== src/Tests/Admission.antt =====
-- A client's connection at a running server, from its first byte to its registration.
use bluecross.Base.{◌≡◌, refl, true, some, [], ◌∷◌, pos, ok}
use bluecross.Base.Maps.{lookup, insert}
use bluecross.Clipboard
use bluecross.Config.{left, as_str}
use bluecross.Base.Words.{as_i32}
use bluecross.Client.Apply.{i64_field, str_field}
use bluecross.Protocol.Codec.{encode, decode}
use bluecross.Secure.{closed, read_chunk, write_all, write_chunks, write_chunk, put}
use bluecross.Secure.Chunks.{chunks}
use bluecross.Secure.Handshake.{server_handshake, write_hs, read_hs, put_socket}
use bluecross.Protocol.{Message, from_u8}
use bluecross.Protocol.Builders
use bluecross.Protocol.Reader.{send, receive, receive_loop}
use bluecross.Server.State.{ClientInfo, new}
use bluecross.Server.Events.{handle_event}
use bluecross.Server.Tasks.{
  World, start, register_connection, handle_next, handle_from, handles, Reach, here, next,
}
use bluecross.Connection.{accept_client, register}
use bluecross.Connection.Accept.{Arrival, handle_new_connection}
use bluecross.Connection.Admission.{IsAdmitted, HasKey, handle_new_connection-Step, Reach-HasKey}
use bluecross.Tests.Connection.{server, writer, after}
use bluecross.Tests.Flat.{flat}
use bluecross.Tests.Plain.{plain}
use bluecross.Tests.Server.{queues}

abbrev hello : Message flat.Value
hello = Builders.handshake flat "laptop" (pos 100) (pos 80)

abbrev arrival : Arrival
arrival = record {
  socket = record {
    incoming = 0 ∷ 0 ∷ (after (send flat plain writer hello)).written;
    ended_by = closed;
    written = [];
    accepts = λ before bytes. true;
  };
  secure_in_time = true;
  message_in_time = true;
}

abbrev begun : World flat
begun = start flat server (4 ∷ []) Clipboard.new 0

abbrev laptop : ClientInfo
laptop = record { position = left; screen_width = pos 100; screen_height = pos 80; tx = 7 }

connected :
    handle_new_connection flat plain server arrival 7 begun
    ≡ ok (register_connection flat "laptop" laptop begun)
unfolding handle_new_connection server_handshake accept_client register receive send lookup
    read_chunk decode write_hs read_hs put_socket write_all write_chunks write_chunk put encode
    chunks i64_field str_field Builders.handshake Builders.handshake_ack as_i32 as_str receive_loop
    from_u8
connected = refl

abbrev registered : World flat
registered = record (register_connection flat "laptop" laptop begun) {
  server = record (new flat server Clipboard.new 0) {
    device_fds = 4 ∷ [];
    clients = ("laptop", laptop) ∷ [];
  };
  events = [];
}

reached : Reach flat (IsAdmitted flat plain server) queues begun registered
unfolding start handle_next handle_from handle_event insert new register_connection
reached =
    next
      (next here
        (handle_new_connection-Step flat plain server queues arrival 7 begun _ refl connected))
      (handles 0 refl)

found : lookup "laptop" registered.server.clients ≡ some laptop
unfolding lookup
found = refl

Reach-HasKey_example :
    (came : IsAdmitted flat plain server "laptop" laptop) × HasKey flat plain server came.arrival
    × (lookup "laptop" server.clients ≡ some left)
Reach-HasKey_example =
    Reach-HasKey flat plain server queues (4 ∷ []) Clipboard.new 0 registered "laptop" laptop
      reached found
