-- ===== src/Protocol/Builders.antt =====
-- src/protocol.rs: the constructors of messages and the fields that they give a payload.
use bluecross.Base.{ℕ, [], ◌∷◌, String, ℤ, pos}
use bluecross.Json.{Json}
use bluecross.Protocol.{Message, MessageType}

module _ (j : Json) where
  open j use {Value, object, string, number}

  unfoldable pub handshake : String → ℤ → ℤ → Message Value
  handshake name screen_width screen_height = record {
    msg_type = MessageType.handshake;
    payload = object (
        ("name", string name)
        ∷ ("screen_width", number screen_width)
        ∷ ("screen_height", number screen_height)
        ∷ []);
  }

  unfoldable pub handshake_ack : String → ℤ → ℤ → Message Value
  handshake_ack position server_width server_height = record {
    msg_type = MessageType.handshake_ack;
    payload = object (
        ("position", string position)
        ∷ ("server_width", number server_width)
        ∷ ("server_height", number server_height)
        ∷ []);
  }

  unfoldable pub key_event : ℕ → ℤ → Message Value
  key_event code value = record {
    msg_type = MessageType.key_event;
    payload = object (("code", number (pos code)) ∷ ("value", number value) ∷ []);
  }

  unfoldable pub mouse_move : ℤ → ℤ → ℤ → ℤ → Message Value
  mouse_move x y dx dy = record {
    msg_type = MessageType.mouse_move;
    payload =
        object (("x", number x) ∷ ("y", number y) ∷ ("dx", number dx) ∷ ("dy", number dy) ∷ []);
  }

  unfoldable pub mouse_button : ℕ → ℤ → Message Value
  mouse_button button value = record {
    msg_type = MessageType.mouse_button;
    payload = object (("button", number (pos button)) ∷ ("value", number value) ∷ []);
  }

  unfoldable pub mouse_scroll : ℤ → ℤ → Message Value
  mouse_scroll dx dy = record {
    msg_type = MessageType.mouse_scroll;
    payload = object (("dx", number dx) ∷ ("dy", number dy) ∷ []);
  }

  unfoldable pub switch_to_client : ℤ → ℤ → Message Value
  switch_to_client entry_x entry_y = record {
    msg_type = MessageType.switch_to_client;
    payload = object (("entry_x", number entry_x) ∷ ("entry_y", number entry_y) ∷ []);
  }

  unfoldable pub switch_to_server : Message Value
  switch_to_server = record { msg_type = MessageType.switch_to_server; payload = object [] }

  unfoldable pub heartbeat : Message Value
  heartbeat = record { msg_type = MessageType.heartbeat; payload = object [] }

  unfoldable pub clipboard_data : String → Message Value
  clipboard_data content = record {
    msg_type = MessageType.clipboard_data;
    payload = object (("content", string content) ∷ []);
  }
