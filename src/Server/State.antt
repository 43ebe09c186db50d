-- ===== src/Server/State.antt =====
-- src/server.rs: `Server`, its queues to the clients, and the parts of its state that switch
-- together.
use text.Mathlib.Text.{◌==◌ as str_eq}
use bluecross.Base.{
  ℕ, Bool, true, false, Option, none, some, List, [], ◌∷◌, ◌++◌, map, String, ℤ, pos, if◌then◌else◌,
}
use bluecross.Base.Maps.{lookup}
use bluecross.Base.Words.{quot}
use bluecross.Json.{Json}
use bluecross.Protocol.{Message}
use bluecross.Config.{ScreenPosition, ServerConfig}
use bluecross.Capture.{Ioctl}
use bluecross.Capture
use bluecross.Clipboard.{ClipboardManager}

-- `tx` names the queue of a client's writer task.
pub record ClientInfo : Type 0 where
  pub position : ScreenPosition
  pub screen_width : ℤ
  pub screen_height : ℤ
  pub tx : ℕ

-- What `try_send` of a bounded channel answers.
pub data SendStatus : Type 0 where
  sent full disconnected : SendStatus

module _ (j : Json) where
  open j use {Value}

  -- The calls that the server makes to what is outside: the queues, the devices, `wl-copy`.
  pub data Call : Type 0 where
    try_send : ℕ → Message Value → Call
    ioctl : Ioctl → Call
    wl_copy : String → Call

  -- The queues' answers. An answer may depend on every call before it.
  abbrev pub Queues : Type 0
  Queues = List Call → ℕ → Message Value → SendStatus

  -- `calls` are the calls made so far, in order. `Instant`s are nanoseconds of a monotonic clock.
  pub record Server : Type 0 where
    pub config : ServerConfig
    pub clients : List (String × ClientInfo)
    pub active_client : Option String
    pub device_fds : List ℕ
    pub grabbed : Bool
    pub mouse_x : ℤ
    pub mouse_y : ℤ
    pub pending_dx : ℤ
    pub pending_dy : ℤ
    pub last_flush : ℕ
    pub clipboard : ClipboardManager
    pub clipboard_paused : Bool
    pub calls : List Call

  unfoldable pub new : ServerConfig → ClipboardManager → ℕ → Server
  new config clipboard now = record {
    config = config;
    clients = [];
    active_client = none;
    device_fds = [];
    grabbed = false;
    mouse_x = quot config.screen_width (pos 2);
    mouse_y = quot config.screen_height (pos 2);
    pending_dx = pos 0;
    pending_dy = pos 0;
    last_flush = now;
    clipboard = clipboard;
    clipboard_paused = false;
    calls = [];
  }

  unfoldable pub grab_devices : Server → Server
  grab_devices s = if s.grabbed then s else record s {
    grabbed = true;
    calls = s.calls ++ map ioctl (Capture.grab_devices s.device_fds);
  }

  unfoldable pub ungrab_devices : Server → Server
  ungrab_devices s =
      if s.grabbed
      then record s {
        grabbed = false;
        calls = s.calls ++ map ioctl (Capture.ungrab_devices s.device_fds);
      }
      else s

  unfoldable pub center_cursor : Server → Server
  center_cursor s = record s {
    mouse_x = quot s.config.screen_width (pos 2);
    mouse_y = quot s.config.screen_height (pos 2);
    pending_dx = pos 0;
    pending_dy = pos 0;
  }

  -- `active_client.as_deref() == Some(name)`
  unfoldable pub is_active : Server → String → Bool
  is_active s name = elim s.active_client [ none ↦ false | some active ↦ str_eq active name ]

  unfoldable pub deactivate : String → Server → Server
  unfolding center_cursor ungrab_devices is_active
  deactivate name s =
      if is_active s name
      then center_cursor
          (record (ungrab_devices (record s { active_client = none })) { clipboard_paused = false })
      else s

  abbrev pub is_alive : SendStatus → Bool
  is_alive sent = true
  is_alive full = true
  is_alive disconnected = false

  -- The first part is the answer. A full queue drops the message and is no failure.
  unfoldable pub send_to : Queues → String → Message Value → Server → Bool × Server
  send_to queues name msg s = elim (lookup name s.clients) [
    | none ↦ (false, s)
    | some client ↦ (
      is_alive (queues s.calls client.tx msg),
      record s { calls = s.calls ++ try_send client.tx msg ∷ [] },
    )
  ]
