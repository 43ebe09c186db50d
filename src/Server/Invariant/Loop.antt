-- ===== src/Server/Invariant/Loop.antt =====
-- src/server.rs: the event loop and the invariant.
use bluecross.Base.{ℕ, refl, Option, none, some, List, [], ◌∷◌, String, arith}
use bluecross.Json.{Json}
use bluecross.Protocol.{Message, MessageType, switch_to_server, clipboard_data}
use bluecross.Protocol.Builders
use bluecross.Server.State.{Server, Queues}
use bluecross.Server.Events.{
  ServerEvent, input, new_client, client_message, client_disconnected, clipboard_changed, send_each,
  set_clipboard, apply_clipboard, handle_message_type, handle_client_message, broadcast_clipboard,
  handle_event, event_loop, other_names, str_field, names,
}
use bluecross.Server.Invariant.{Inv}
use bluecross.Server.Invariant.Parts.{
  if-Inv, deactivate-Inv, send_to-Inv, disconnect-Inv, insert-IsKnown,
}
use bluecross.Server.Invariant.Moves.{Keeps, handle_input-Keeps}

module _ {j : Json} (queues : Queues j) where
  send_each-Inv :
      (msg : Message j.Value) (targets : List String) (s : Server j)
      → Inv s
      → Inv (send_each j queues msg targets s)
  unfolding send_each
  send_each-Inv msg [] s h = h
  send_each-Inv msg (name ∷ more) s h = send_each-Inv msg more _ (send_to-Inv queues name msg s h)

  set_clipboard-Inv : (content : String) (s : Server j) → Inv s → Inv (set_clipboard j content s)
  unfolding set_clipboard
  set_clipboard-Inv content s h = record { coherent = ground arith; known = h.known }

  apply_clipboard-Inv :
      (name : String) (content : Option String) (s : Server j)
      → Inv s
      → Inv (apply_clipboard j queues name content s)
  unfolding apply_clipboard
  apply_clipboard-Inv name none s h = h
  apply_clipboard-Inv name (some content) s h =
      if-Inv s.config.clipboard_sharing _ s
        (send_each-Inv (Builders.clipboard_data j content) (other_names j name s.clients) _
          (set_clipboard-Inv content s h))
        h

  message-Inv :
      (name : String) (msg : Message j.Value) (t : MessageType) (s : Server j)
      → Inv s
      → Inv (handle_message_type j queues name msg t s)
  unfolding handle_message_type
  message-Inv name msg switch_to_server s h = if-Inv _ _ s (deactivate-Inv name s h) h
  message-Inv name msg clipboard_data s h = apply_clipboard-Inv name (str_field j msg "content") s h
  message-Inv name msg _ s h = h

  broadcast-Inv :
      (content : String) (s : Server j) → Inv s → Inv (broadcast_clipboard j queues content s)
  unfolding broadcast_clipboard
  broadcast-Inv content s h =
      if-Inv _ s _ h (send_each-Inv (Builders.clipboard_data j content) (names j s.clients) s h)

  handle_event-Keeps :
      (now : ℕ) (event : ServerEvent j) (s : Server j)
      → Inv s
      → Keeps queues (handle_event j queues now event s)
  unfolding handle_event handle_client_message
  handle_event-Keeps now (input event) s h = handle_input-Keeps queues now event s h
  handle_event-Keeps now (new_client name info) s h = (
    _,
    refl,
    record {
      coherent = ground arith;
      known = insert-IsKnown name info s.clients s.active_client h.known;
    },
  )
  handle_event-Keeps now (client_message name msg) s h =
      (_, refl, message-Inv name msg msg.msg_type s h)
  handle_event-Keeps now (client_disconnected name) s h = (_, refl, disconnect-Inv name s h)
  handle_event-Keeps now (clipboard_changed content) s h = (_, refl, broadcast-Inv content s h)

  -- From a state that satisfies the invariant, no sequence of events makes the loop panic, and after
  -- each sequence the invariant holds: the devices are grabbed and the clipboard paused exactly while
  -- a client is active, the active client is registered, the cursor is on the screen, and no motion
  -- is pending while no client is active.
  pub event_loop-Keeps :
      (events : List (ℕ × ServerEvent j)) (s : Server j)
      → Inv s
      → Keeps queues (event_loop j queues events s)
  unfolding event_loop
  event_loop-Keeps [] s h = (s, refl, h)
  event_loop-Keeps ((now, event) ∷ more) s h =
      let (t, e, k) = handle_event-Keeps now event s h in rw e (event_loop-Keeps more t k)
