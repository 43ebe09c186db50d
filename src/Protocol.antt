-- ===== src/Protocol.antt =====
-- src/protocol.rs: the message types, and a message as a type with a JSON payload.
pub mod Codec
pub mod Builders
pub mod Buffer
pub mod Reader
use bluecross.Base.{ℕ, suc, ◌<◌, ◌≡◌, refl, Option, none, some, arith, ◌==◌, if◌then◌else◌, ◌↔◌}

pub data MessageType : Type 0 where
  handshake handshake_ack key_event mouse_move mouse_button : MessageType
  mouse_scroll switch_to_client switch_to_server heartbeat clipboard_data : MessageType

-- `msg_type as u8`
unfoldable pub type_byte : MessageType → ℕ
type_byte handshake = 1
type_byte handshake_ack = 2
type_byte key_event = 3
type_byte mouse_move = 4
type_byte mouse_button = 5
type_byte mouse_scroll = 6
type_byte switch_to_client = 7
type_byte switch_to_server = 8
type_byte heartbeat = 9
type_byte clipboard_data = 10

unfoldable pub from_u8 : ℕ → Option MessageType
from_u8 v =
    if v == 1
    then some handshake
    else if v == 2
    then some handshake_ack
    else if v == 3
    then some key_event
    else if v == 4
    then some mouse_move
    else if v == 5
    then some mouse_button
    else if v == 6
    then some mouse_scroll
    else if v == 7
    then some switch_to_client
    else if v == 8
    then some switch_to_server
    else if v == 9
    then some heartbeat
    else if v == 10
    then some clipboard_data
    else none

pub record Message (Value : Type 0) : Type 0 where
  pub msg_type : MessageType
  pub payload : Value

pub from_u8-type_byte : (t : MessageType) → from_u8 (type_byte t) ≡ some t
unfolding from_u8 type_byte
from_u8-type_byte t = ground arith

-- A byte names a message type exactly when it is that type's own byte.
pub from_u8_iff : (v : ℕ) (t : MessageType) → (from_u8 v ≡ some t) ↔ (v ≡ type_byte t)
unfolding from_u8 type_byte
from_u8_iff v t = (λ h. ground arith, λ h. ground arith)
