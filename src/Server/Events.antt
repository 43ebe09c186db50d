-- ===== src/Server/Events.antt =====
-- src/server.rs: the other handlers, and the event loop of `run_async`.
use text.Mathlib.Text.{◌==◌ as str_eq}
use bluecross.Base.{
  ℕ, Bool, true, false, Option, none, some, List, [], ◌∷◌, ◌++◌, String, ◌||◌, Outcome, done,
  and_then, if◌then◌else◌,
}
use bluecross.Base.Maps.{insert, remove}
use bluecross.Json.{Json}
use bluecross.Protocol.{Message, MessageType, switch_to_server, clipboard_data}
use bluecross.Protocol.Builders
use bluecross.Capture.{CaptureEvent}
use bluecross.Clipboard
use bluecross.Server.State.{
  ClientInfo, wl_copy, Server, Queues, is_active, deactivate, ungrab_devices, send_to,
}
use bluecross.Server.Input.{handle_input}

module _ (j : Json) where
  open j use {Value, get, as_str}

  abbrev pub names : List (String × ClientInfo) → List String
  names [] = []
  names ((name, info) ∷ more) = name ∷ names more

  abbrev pub other_names : String → List (String × ClientInfo) → List String
  other_names name [] = []
  other_names name ((n, info) ∷ more) =
      if str_eq n name then other_names name more else n ∷ other_names name more

  -- `for name in names { self.send_to(&name, msg.clone()); }`
  unfoldable pub send_each : Queues j → Message Value → List String → Server j → Server j
  send_each queues msg [] s = s
  send_each queues msg (name ∷ more) s = send_each queues msg more (send_to j queues name msg s).1

  -- `payload.get(key).and_then(|v| v.as_str())`
  unfoldable pub str_field : Message Value → String → Option String
  str_field msg k = elim (get msg.payload k) [ none ↦ none | some v ↦ as_str v ]

  -- `clipboard.set(content)`: the new manager, and the write that it makes.
  unfoldable pub set_clipboard : String → Server j → Server j
  set_clipboard content s =
      let (clipboard, written) = Clipboard.set s.clipboard content in
      record s {
        clipboard = clipboard;
        calls = elim written [ none ↦ s.calls | some text ↦ s.calls ++ wl_copy text ∷ [] ];
      }

  unfoldable pub apply_clipboard : Queues j → String → Option String → Server j → Server j
  unfolding set_clipboard send_each
  apply_clipboard queues client_name none s = s
  apply_clipboard queues client_name (some content) s =
      if s.config.clipboard_sharing
      then send_each queues (Builders.clipboard_data j content) (other_names client_name s.clients)
          (set_clipboard content s)
      else s

  unfoldable pub handle_message_type :
      Queues j → String → Message Value → MessageType → Server j → Server j
  unfolding apply_clipboard str_field
  handle_message_type queues client_name msg switch_to_server s =
      if is_active j s client_name then deactivate j client_name s else s
  handle_message_type queues client_name msg clipboard_data s =
      apply_clipboard queues client_name (str_field msg "content") s
  handle_message_type queues client_name msg _ s = s

  unfoldable pub handle_client_message : Queues j → String → Message Value → Server j → Server j
  unfolding handle_message_type
  handle_client_message queues client_name msg s =
      handle_message_type queues client_name msg msg.msg_type s

  unfoldable pub handle_client_disconnect : String → Server j → Server j
  handle_client_disconnect client_name s =
      deactivate j client_name (record s { clients = remove client_name s.clients })

  abbrev pub has_no_clients : Server j → Bool
  has_no_clients s = elim s.clients [ [] ↦ true | c ∷ more ↦ false ]

  unfoldable pub broadcast_clipboard : Queues j → String → Server j → Server j
  unfolding send_each
  broadcast_clipboard queues content s =
      if has_no_clients s || s.clipboard_paused
      then s
      else send_each queues (Builders.clipboard_data j content) (names s.clients) s

  pub data ServerEvent : Type 0 where
    input : CaptureEvent → ServerEvent
    new_client : String → ClientInfo → ServerEvent
    client_message : String → Message Value → ServerEvent
    client_disconnected : String → ServerEvent
    clipboard_changed : String → ServerEvent

  -- One round of the event loop, at the time `now`.
  unfoldable pub handle_event : Queues j → ℕ → ServerEvent → Server j → Outcome (Server j)
  handle_event queues now (input event) s = handle_input j queues now event s
  handle_event queues now (new_client name info) s =
      done (record s { clients = insert name info s.clients })
  handle_event queues now (client_message name msg) s =
      done (handle_client_message queues name msg s)
  handle_event queues now (client_disconnected name) s = done (handle_client_disconnect name s)
  handle_event queues now (clipboard_changed content) s =
      done (broadcast_clipboard queues content s)

  unfoldable pub event_loop : Queues j → List (ℕ × ServerEvent) → Server j → Outcome (Server j)
  event_loop queues [] s = done s
  event_loop queues ((now, event) ∷ more) s =
      and_then (handle_event queues now event s) (λ t. event_loop queues more t)

  -- The events until a signal arrives, and what follows the loop.
  unfoldable pub run_async : Queues j → List (ℕ × ServerEvent) → Server j → Outcome (Server j)
  unfolding event_loop
  run_async queues events s = and_then (event_loop queues events s) (λ t. done (ungrab_devices j t))
