-- ===== src/Server/Grabs/Released.antt =====
-- src/server.rs: the grabs after the events, and at the end of `run_async`.
use bluecross.Base.{
  ℕ, ◌≡◌, refl, ◌∙◌, ap, false, Option, none, some, List, [], ◌∷◌, String, arith, done,
  and_then-eq-done, ◌&&◌,
}
use bluecross.Base.Maps.{insert, remove}
use bluecross.Json.{Json}
use bluecross.Protocol.{Message, MessageType, switch_to_server, clipboard_data}
use bluecross.Protocol.Builders
use bluecross.Clipboard
use bluecross.Clipboard.{ClipboardManager}
use bluecross.Config.{ServerConfig}
use bluecross.Server.State.{wl_copy, Server, Queues, new, ungrab_devices, deactivate, is_active}
use bluecross.Server.Events.{
  ServerEvent, input, new_client, client_message, client_disconnected, clipboard_changed, send_each,
  set_clipboard, apply_clipboard, handle_message_type, handle_client_message, broadcast_clipboard,
  handle_client_disconnect, handle_event, event_loop, run_async, other_names, str_field, names,
}
use bluecross.Server.Invariant.{is_some, IsScreen, Inv}
use bluecross.Server.Invariant.Parts.{new-Inv}
use bluecross.Server.Invariant.Loop.{event_loop-Keeps}
use bluecross.Server.Grabs.{grab_after, grab_after-append, ungrab_devices-IsFaithful, is_in}
use bluecross.Server.Grabs.Kept.{F, if-F, same-F, send_to-F, deactivate-F, handle_input-F}

module _ {j : Json} (queues : Queues j) (fds : List ℕ) where
  send_each-F :
      (msg : Message j.Value) (targets : List String) (s : Server j)
      → F queues fds s
      → F queues fds (send_each j queues msg targets s)
  unfolding send_each
  send_each-F msg [] s h = h
  send_each-F msg (name ∷ more) s h = send_each-F msg more _ (send_to-F queues fds name msg s h)

  set_clipboard-F :
      (content : String) (s : Server j) → F queues fds s → F queues fds (set_clipboard j content s)
  unfolding set_clipboard Clipboard.set
  set_clipboard-F content s h = record {
    device_fds = ground (arith, h.device_fds);
    held = λ fd.
        ground (arith, h.held fd, grab_after-append j fd false s.calls (wl_copy content ∷ []));
  }

  apply_clipboard-F :
      (name : String) (content : Option String) (s : Server j)
      → F queues fds s
      → F queues fds (apply_clipboard j queues name content s)
  unfolding apply_clipboard
  apply_clipboard-F name none s h = h
  apply_clipboard-F name (some content) s h =
      if-F queues fds s.config.clipboard_sharing _ s
        (send_each-F (Builders.clipboard_data j content) (other_names j name s.clients) _
          (set_clipboard-F content s h))
        h

  message-F :
      (name : String) (msg : Message j.Value) (t : MessageType) (s : Server j)
      → F queues fds s
      → F queues fds (handle_message_type j queues name msg t s)
  unfolding handle_message_type
  message-F name msg switch_to_server s h =
      if-F queues fds (is_active j s name) _ s (deactivate-F queues fds name s h) h
  message-F name msg clipboard_data s h = apply_clipboard-F name (str_field j msg "content") s h
  message-F name msg _ s h = h

  broadcast-F :
      (content : String) (s : Server j)
      → F queues fds s
      → F queues fds (broadcast_clipboard j queues content s)
  unfolding broadcast_clipboard
  broadcast-F content s h =
      if-F queues fds _ s _ h
        (send_each-F (Builders.clipboard_data j content) (names j s.clients) s h)

  handle_event-F :
      (now : ℕ) (event : ServerEvent j) (s t : Server j)
      → F queues fds s
      → handle_event j queues now event s ≡ done t
      → F queues fds t
  unfolding handle_event handle_client_message handle_client_disconnect
  handle_event-F now (input event) s t h e = handle_input-F queues fds now event s t h e
  handle_event-F now (new_client name info) s t h e =
      let same : record s { clients = insert name info s.clients } ≡ t = cc in
      rw same at
        (same-F queues fds s (record s { clients = insert name info s.clients }) h refl refl refl)
  handle_event-F now (client_message name msg) s t h e =
      let same : handle_message_type j queues name msg msg.msg_type s ≡ t = cc in
      rw same at (message-F name msg msg.msg_type s h)
  handle_event-F now (client_disconnected name) s t h e =
      let u = record s { clients = remove name s.clients } in
      let same : deactivate j name u ≡ t = cc in
      rw same at (deactivate-F queues fds name u (same-F queues fds s u h refl refl refl))
  handle_event-F now (clipboard_changed content) s t h e =
      let same : broadcast_clipboard j queues content s ≡ t = cc in
      rw same at (broadcast-F content s h)

  event_loop-F :
      (events : List (ℕ × ServerEvent j)) (s t : Server j)
      → F queues fds s
      → event_loop j queues events s ≡ done t
      → F queues fds t
  unfolding event_loop
  event_loop-F [] s t h e = (let same : s ≡ t = cc in rw same at h)
  event_loop-F ((now, event) ∷ more) s t h e =
      let (u, d, e₁) = and_then-eq-done (handle_event j queues now event s) _ e in
      event_loop-F more u t (handle_event-F now event s u h d) e₁

  -- The server at the start of the loop, with its captured devices.
  abbrev pub started : ServerConfig → ClipboardManager → ℕ → Server j
  started config clipboard start = record (new j config clipboard start) { device_fds = fds }

  started-Inv :
      (config : ServerConfig) (clipboard : ClipboardManager) (start : ℕ)
      → IsScreen config.screen_width config.screen_height
      → Inv (started config clipboard start)
  started-Inv config clipboard start h =
      let k = new-Inv config clipboard start h in
      record { coherent = ground arith; known = k.known }

  started-F :
      (config : ServerConfig) (clipboard : ClipboardManager) (start : ℕ)
      → F queues fds (started config clipboard start)
  unfolding new
  started-F config clipboard start = record { device_fds = refl; held = λ fd. refl }

  -- After any events the kernel's view and the server's agree: a server that starts with a valid
  -- screen reaches a state in which exactly the captured devices are grabbed if a client is active,
  -- and no device is grabbed if none is. A device is grabbed when the last of the calls that the
  -- server made for it set the grab.
  pub event_loop-grabs :
      (config : ServerConfig) (clipboard : ClipboardManager) (start : ℕ)
      (events : List (ℕ × ServerEvent j))
      → IsScreen config.screen_width config.screen_height
      → (t : Server j) × (event_loop j queues events (started config clipboard start) ≡ done t)
        × ((fd : ℕ) → grab_after j fd false t.calls ≡ (is_some t.active_client && is_in fd fds))
  event_loop-grabs config clipboard start events h =
      let s = started config clipboard start in
      let (t, e, k) = event_loop-Keeps queues events s (started-Inv config clipboard start h) in
      let f = event_loop-F events s t (started-F config clipboard start) e in
      (t, e, λ fd. f.held fd ∙ ap (λ b. b && is_in fd fds) k.coherent.grabbed)

  -- A server that starts with a valid screen runs without a panic until it is told to stop, and
  -- leaves with every device released, whatever the events and the queues' answers.
  pub run_async-releases :
      (config : ServerConfig) (clipboard : ClipboardManager) (start : ℕ)
      (events : List (ℕ × ServerEvent j))
      → IsScreen config.screen_width config.screen_height
      → (t : Server j) × (run_async j queues events (started config clipboard start) ≡ done t)
        × ((fd : ℕ) → grab_after j fd false t.calls ≡ false)
  unfolding run_async
  run_async-releases config clipboard start events h =
      let s = started config clipboard start in
      let (t, e, k) = event_loop-Keeps queues events s (started-Inv config clipboard start h) in
      let f =
        ungrab_devices-IsFaithful j fds t
          (event_loop-F events s t (started-F config clipboard start) e) in
      let off : (ungrab_devices j t).grabbed ≡ false = (unfold ungrab_devices in ground arith) in
      (ungrab_devices j t, rw e, λ fd. f.held fd ∙ ap (λ b. b && is_in fd fds) off)
