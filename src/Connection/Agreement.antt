-- ===== src/Connection/Agreement.antt =====
-- src/server.rs and src/client.rs: what both sides know after the application handshake.
use bluecross.Base.{
  ℕ, ◌≡◌, refl, ◌∙◌, ap, Option, none, some, List, [], ◌∷◌, String, ℤ, pos, ok, try-eq-ok, arith,
}
use bluecross.Base.Words.{InI32, as_i32, as_i32-fits}
use bluecross.Base.Maps.{lookup}
use bluecross.Json.{Json, JsonLaws, HasDistinctKeys}
use bluecross.Secure.Snow.{Noise}
use bluecross.Secure.{SecureWriter}
use bluecross.Protocol.{Message, MessageType, handshake}
use bluecross.Protocol.Builders
use bluecross.Protocol.Reader.{ProtocolReader, send}
use bluecross.Config.{ScreenPosition, as_str, ServerConfig, ClientConfig}
use bluecross.Config.Position.{from_str-as_str}
use bluecross.Client.Apply.{i64_field, str_field}
use bluecross.Client.Forwarded.{i64_field-object, i32-InI64}
use bluecross.Client.State.{ClientState, new}
use bluecross.Connection.{
  unknown_client, Registration, or_else, read_handshake, register, ack_of, read_ack, first_message,
  accept_client, join_server,
}

-- The screen sizes of both configurations are `i32`s.
pub record AreI32 (width height : ℤ) : Type 0 where
  pub width_i32 : InI32 width
  pub height_i32 : InI32 height

str_field-reads :
    (j : Json) (payload v : j.Value) (k s : String)
    → j.get payload k ≡ some v
    → j.as_str v ≡ some s
    → str_field j payload k ≡ some s
unfolding str_field
str_field-reads j payload v k s e f = ground (arith, e, f)

module _ (j : Json) where
  -- The client's first message, and what the server makes of it.
  abbrev pub hello_of : ClientConfig → Message j.Value
  hello_of c = Builders.handshake j c.name c.screen_width c.screen_height

abbrev pub registration_of : ClientConfig → ScreenPosition → Registration
registration_of c position = record {
  name = c.name;
  position = position;
  screen_width = c.screen_width;
  screen_height = c.screen_height;
}

module _ {j : Json} (l : JsonLaws j) where
  -- One field of an object, with the default that stands in the code.
  i32_field :
      (fields : List (String × j.Value)) (k : String) (z default : ℤ)
      → HasDistinctKeys fields
      → lookup k fields ≡ some (j.number z)
      → InI32 z
      → as_i32 (i64_field j (j.object fields) k default) ≡ z
  i32_field fields k z default d e h =
      ap as_i32 (i64_field-object l fields k z default d e (i32-InI64 z h)) ∙ as_i32-fits z h

  text_field :
      (fields : List (String × j.Value)) (k s : String)
      → HasDistinctKeys fields
      → lookup k fields ≡ some (j.string s)
      → str_field j (j.object fields) k ≡ some s
  text_field fields k s d e =
      str_field-reads j (j.object fields) (j.string s) k s (l.get-object fields k d ∙ e)
        (l.as_str-string s)

  -- What the server learns from the client's first message.
  register-handshake :
      (config : ServerConfig) (name : String) (width height : ℤ) (position : ScreenPosition)
      → AreI32 width height
      → lookup name config.clients ≡ some position
      → register j config (Builders.handshake j name width height)
        ≡ ok (record {
          name = name;
          position = position;
          screen_width = width;
          screen_height = height;
        })
  unfolding register read_handshake Builders.handshake lookup
  register-handshake config name width height position h e =
      let fields : List (String × j.Value) =
        ("name", j.string name)
        ∷ ("screen_width", j.number width)
        ∷ ("screen_height", j.number height)
        ∷ [] in
      let d : HasDistinctKeys fields = (refl, (refl, (refl, tt))) in
      rw (
        text_field fields "name" name d refl,
        i32_field fields "screen_width" width (pos 1920) d refl h.width_i32,
        i32_field fields "screen_height" height (pos 1080) d refl h.height_i32,
        e,
      )

  read_ack-ack_of :
      (config : ServerConfig) (state : ClientState) (r : Registration)
      → AreI32 config.screen_width config.screen_height
      → read_ack j state (ack_of j config r).msg_type (ack_of j config r).payload
        ≡ ok (record state {
          position = some r.position;
          server_width = config.screen_width;
          server_height = config.screen_height;
        })
  unfolding read_ack Builders.handshake_ack lookup
  read_ack-ack_of config state r h =
      let fields : List (String × j.Value) =
        ("position", j.string (as_str r.position))
        ∷ ("server_width", j.number config.screen_width)
        ∷ ("server_height", j.number config.screen_height)
        ∷ [] in
      let d : HasDistinctKeys fields = (refl, (refl, (refl, tt))) in
      rw (
        text_field fields "position" (as_str r.position) d refl,
        i32_field fields "server_width" config.screen_width (pos 1920) d refl h.width_i32,
        i32_field fields "server_height" config.screen_height (pos 1080) d refl h.height_i32,
        from_str-as_str r.position,
      )

  -- A client whose name is configured and the server come out of the handshake with the same
  -- knowledge, when each receives what the other sent: the server registers the client under its
  -- name at the configured position and with the client's screen size, and the client knows that
  -- position and the server's screen size. Screen sizes are `i32`s, both messages are sent without
  -- an error, and the JSON crate keeps its laws.
  pub accept_client-join_server :
      (n : Noise) (config : ServerConfig) (c : ClientConfig) (position : ScreenPosition) (t u : ℕ)
      (on_server : ProtocolReader j n) (on_client : ProtocolReader j n)
      (server_writer server_sent client_writer client_sent : SecureWriter n)
      → AreI32 config.screen_width config.screen_height
      → AreI32 c.screen_width c.screen_height
      → lookup c.name config.clients ≡ some position
      → send j n client_writer (hello_of j c) ≡ ok client_sent
      → send j n server_writer (ack_of j config (registration_of c position)) ≡ ok server_sent
      → (accept_client j n config (some (ok (some (hello_of j c, on_server)))) server_writer
          ≡ ok (registration_of c position, on_server, server_sent))
        × (join_server j n c t u client_writer
              (λ w. ok (some (ack_of j config (registration_of c position), on_client)))
            ≡ ok (
              record (new c t u) {
                position = some position;
                server_width = config.screen_width;
                server_height = config.screen_height;
              },
              on_client,
              client_sent,
            ))
  unfolding accept_client join_server first_message
  accept_client-join_server n config c position t u on_server on_client sw ss cw cs h k e p q = (
    rw (register-handshake config c.name c.screen_width c.screen_height position k e, q),
    rw (p, read_ack-ack_of config (new c t u) _ h),
  )

read_handshake-handshake :
    (j : Json) (t : MessageType) (payload : j.Value) (client : String × ℤ × ℤ)
    → read_handshake j t payload ≡ ok client
    → t ≡ handshake
unfolding read_handshake
read_handshake-handshake j handshake payload client e = refl
read_handshake-handshake j _ payload client e = cc

pub or_else-eq-ok : {E A : Type 0} (e : E) (o : Option A) (a : A) → or_else e o ≡ ok a → o ≡ some a
or_else-eq-ok e none a h = cc
or_else-eq-ok e (some b) a h = cc

-- Whatever a peer sends, a client is registered only on a handshake message, under a name of the
-- configuration, and at the position that the configuration has for it.
pub register-lookup :
    (j : Json) (config : ServerConfig) (msg : Message j.Value) (r : Registration)
    → register j config msg ≡ ok r
    → (msg.msg_type ≡ handshake) × (lookup r.name config.clients ≡ some r.position)
unfolding register
register-lookup j config msg r e =
    let (client, d, e₁) = try-eq-ok (read_handshake j msg.msg_type msg.payload) _ e in
    let (position, found, e₂) =
      try-eq-ok (or_else (unknown_client client.0) (lookup client.0 config.clients)) _ e₁ in
    let named : client.0 ≡ r.name = cc in
    let placed : position ≡ r.position = cc in
    (
      read_handshake-handshake j msg.msg_type msg.payload client d,
      rw (named, placed) at (or_else-eq-ok _ (lookup client.0 config.clients) position found),
    )
