-- ===== src/Connection.antt =====
-- src/server.rs and src/client.rs: the application handshake on the encrypted channel, from
-- `handle_new_connection` and from the start of the client's `run_async`. The time limits are
-- answers: a step that timed out has no result.
pub mod Agreement
pub mod Accept
pub mod Admission
use bluecross.Base.{ℕ, Option, none, some, String, ℤ, pos, Result, ok, err, try, if◌then◌else◌}
use bluecross.Base.Words.{as_i32}
use bluecross.Base.Maps.{lookup}
use bluecross.Json.{Json}
use bluecross.Secure.Snow.{Noise}
use bluecross.Secure.{SecureWriter, SecureError}
use bluecross.Protocol.{Message, MessageType, handshake, handshake_ack}
use bluecross.Protocol.Builders
use bluecross.Protocol.Reader.{ProtocolReader, Received, ReceiveError, send}
use bluecross.Config.{ScreenPosition, from_str, as_str, ServerConfig, ClientConfig}
use bluecross.Client.Apply.{i64_field, str_field}
use bluecross.Client.State.{ClientState, new}

pub data HandshakeError : Type 0 where
  timed_out connection_closed invalid_handshake missing_name : HandshakeError
  unknown_client : String → HandshakeError
  receive_failed : ReceiveError → HandshakeError
  secure_failed send_failed : SecureError → HandshakeError

-- What the server learns of a client, and where the client lies.
pub record Registration : Type 0 where
  pub name : String
  pub position : ScreenPosition
  pub screen_width : ℤ
  pub screen_height : ℤ

abbrev pub or_else {ℓ} : {E A : Type ℓ} → E → Option A → Result E A
or_else e none = err e
or_else e (some a) = ok a

module _ (j : Json) where
  -- The tests on the first message, and its fields.
  unfoldable pub read_handshake : MessageType → j.Value → Result HandshakeError (String × ℤ × ℤ)
  read_handshake handshake payload =
      try (or_else missing_name (str_field j payload "name")) λ client_name. ok (
        client_name,
        as_i32 (i64_field j payload "screen_width" (pos 1920)),
        as_i32 (i64_field j payload "screen_height" (pos 1080)),
      )
  read_handshake _ payload = err invalid_handshake

  unfoldable pub register : ServerConfig → Message j.Value → Result HandshakeError Registration
  unfolding read_handshake
  register config msg = try (read_handshake msg.msg_type msg.payload) λ client.
      try (or_else (unknown_client client.0) (lookup client.0 config.clients)) λ position.
        ok (record {
          name = client.0;
          position = position;
          screen_width = client.1;
          screen_height = client.2;
        })

  abbrev pub ack_of : ServerConfig → Registration → Message j.Value
  ack_of config r =
      Builders.handshake_ack j (as_str r.position) config.screen_width config.screen_height

  -- The client's side of the answer.
  unfoldable pub read_ack : ClientState → MessageType → j.Value → Result HandshakeError ClientState
  read_ack state handshake_ack payload = ok (record state {
    position = elim (str_field j payload "position") [ none ↦ none | some s ↦ from_str s ];
    server_width = as_i32 (i64_field j payload "server_width" (pos 1920));
    server_height = as_i32 (i64_field j payload "server_height" (pos 1080));
  })
  read_ack state _ payload = err invalid_handshake

  module _ (n : Noise) where
    -- `reader.receive().await?.ok_or_else(...)?`
    unfoldable pub first_message :
        Received j n → Result HandshakeError (Message j.Value × ProtocolReader j n)
    first_message (ok (some (msg, reader))) = ok (msg, reader)
    first_message (ok none) = err connection_closed
    first_message (err e) = err (receive_failed e)

    abbrev pub or_send_failed :
        Result SecureError (SecureWriter n) → Result HandshakeError (SecureWriter n)
    or_send_failed (ok w) = ok w
    or_send_failed (err e) = err (send_failed e)

    -- The server's side, from the encrypted channel on: `received` is what the timed `receive`
    -- returned. The registration, and both halves for the tasks.
    unfoldable pub accept_client :
        ServerConfig
        → Option (Received j n)
        → SecureWriter n
        → Result HandshakeError (Registration × ProtocolReader j n × SecureWriter n)
    unfolding first_message register
    accept_client config received writer = try (or_else timed_out received) λ result.
        try (first_message result) λ first.
          try (register config first.0)
            λ r. try (or_send_failed (send j n writer (ack_of config r))) λ w. ok (r, first.1, w)

    -- The client's side: what it sends, and the state after the answer.
    unfoldable pub join_server :
        ClientConfig
        → ℕ
        → ℕ
        → SecureWriter n
        → (SecureWriter n → Received j n)
        → Result HandshakeError (ClientState × ProtocolReader j n × SecureWriter n)
    unfolding first_message read_ack
    join_server config switch_now push_now writer receive =
        try
          (or_send_failed (
            send j n writer
              (Builders.handshake j config.name config.screen_width config.screen_height)))
          λ w. try (first_message (receive w)) λ first.
            try (read_ack (new config switch_now push_now) first.0.msg_type first.0.payload)
              λ state. ok (state, first.1, w)
