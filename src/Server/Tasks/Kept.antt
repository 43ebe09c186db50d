-- ===== src/Server/Tasks/Kept.antt =====
-- src/server.rs: only registrations and disconnects change the map of clients.
use bluecross.Base.{
  ℕ, ◌≡◌, refl, ◌∙◌, ap, Bool, true, false, Option, none, some, List, [], ◌∷◌, String, ℤ, Outcome,
  ◌||◌, done, panic, pos, subst, subst⁻¹, and_then, if◌then◌else◌,
}
use bluecross.Base.Words.{add_i32, sub_i32, clamp}
use bluecross.Json.{Json}
use bluecross.Protocol.{Message, MessageType, switch_to_server, clipboard_data}
use bluecross.Protocol.Builders
use bluecross.Capture.{CaptureEvent, key, mouse_move, mouse_button, mouse_scroll}
use bluecross.Server.State.{Server, Queues, is_active, send_to}
use bluecross.Server.Edge.{Entry, check_edge}
use bluecross.Server.Input.{
  after_motion, move_active, after_switch, enter_client, moved, move_mouse, send_or_deactivate,
  after_flush, forward, forward_to_active, handle_input,
}
use bluecross.Server.Events.{
  send_each, other_names, names, has_no_clients, str_field, set_clipboard, apply_clipboard,
  handle_message_type, handle_client_message, broadcast_clipboard, handle_event, ServerEvent, input,
  new_client, client_message, client_disconnected, clipboard_changed,
}
use bluecross.Server.Invariant.Parts.{send_to-same, deactivate-clients, grab_devices-clients}

-- The events that neither register a client nor end one.
abbrev pub IsOther : {j : Json} → ServerEvent j → Type 0
IsOther (new_client name info) = ⊥
IsOther (client_disconnected name) = ⊥
IsOther _ = Unit

module _ {j : Json} (queues : Queues j) where
  abbrev pub Keeps : Server j → Server j → Type 0
  Keeps s t = t.clients ≡ s.clients

  Keeps-send_to :
      (name : String) (msg : Message j.Value) (s : Server j)
      → Keeps s (send_to j queues name msg s).1
  Keeps-send_to name msg s = ap (λ (t : Server j). t.clients) (send_to-same queues name msg s)

  Keeps-if :
      (test : Bool) (s t u : Server j) → Keeps s t → Keeps s u → Keeps s (if test then t else u)
  Keeps-if true s t u h k = h
  Keeps-if false s t u h k = k

  Keeps-after_switch : (name : String) (r : Bool × Server j) → Keeps r.1 (after_switch j name r)
  unfolding after_switch
  Keeps-after_switch name (true, s) = refl
  Keeps-after_switch name (false, s) = deactivate-clients name s

  Keeps-after_motion :
      (name : String) (now : ℕ) (r : Bool × Server j) → Keeps r.1 (after_motion j name now r)
  unfolding after_motion
  Keeps-after_motion name now (true, s) = refl
  Keeps-after_motion name now (false, s) = deactivate-clients name s

  Keeps-send_or_deactivate :
      (name : String) (msg : Message j.Value) (s : Server j)
      → Keeps s (send_or_deactivate j queues name msg s)
  unfolding send_or_deactivate
  Keeps-send_or_deactivate name msg s =
      Keeps-after_switch name (send_to j queues name msg s) ∙ Keeps-send_to name msg s

  Keeps-after_flush :
      (name : String) (msg : Message j.Value) (r : Bool × Server j)
      → Keeps r.1 (after_flush j queues name msg r)
  unfolding after_flush
  Keeps-after_flush name msg (true, s) = Keeps-send_or_deactivate name msg s
  Keeps-after_flush name msg (false, s) = deactivate-clients name s

  Keeps-forward :
      (name : String) (msg : Message j.Value) (flush_motion : Bool) (s : Server j)
      → Keeps s (forward j queues name msg flush_motion s)
  unfolding forward
  Keeps-forward name msg flush_motion s =
      Keeps-if _ s _ _ (Keeps-after_flush name msg _ ∙ Keeps-send_to name _ _)
        (Keeps-send_or_deactivate name msg s)

  abbrev forward_found : Message j.Value → Bool → Server j → Option String → Server j
  forward_found msg flush_motion s none = s
  forward_found msg flush_motion s (some name) = forward j queues name msg flush_motion s

  Keeps-forward_to_active :
      (msg : Message j.Value) (flush_motion : Bool) (s : Server j) (active : Option String)
      → s.active_client ≡ active
      → Keeps s (forward_to_active j queues msg flush_motion s)
  unfolding forward_to_active
  Keeps-forward_to_active msg flush_motion s none e =
      subst⁻¹ (λ a. (forward_found msg flush_motion s a).clients ≡ s.clients) e refl
  Keeps-forward_to_active msg flush_motion s (some name) e =
      subst⁻¹ (λ a. (forward_found msg flush_motion s a).clients ≡ s.clients) e
        (Keeps-forward name msg flush_motion s)

  Keeps-move_active :
      (now : ℕ) (dx dy : ℤ) (name : String) (s : Server j)
      → Keeps s (move_active j queues now dx dy name s)
  unfolding move_active
  Keeps-move_active now dx dy name s =
      Keeps-if _ s _ _ (Keeps-after_motion name now _ ∙ Keeps-send_to name _ _) refl

  Keeps-enter_client :
      (found : Option Entry) (s : Server j) → Keeps s (enter_client j queues found s)
  unfolding enter_client
  Keeps-enter_client none s = refl
  Keeps-enter_client (some (name, x, y)) s =
      Keeps-after_switch name _ ∙ Keeps-send_to name _ _ ∙ grab_devices-clients _

  -- The same of a handler that may panic.
  abbrev pub KeepsIf : Server j → Outcome (Server j) → Type 0
  KeepsIf s (done t) = Keeps s t
  KeepsIf s panic = Unit

  KeepsIf-and_then :
      {A : Type 0} (m : Outcome A) (s : Server j) (f : A → Outcome (Server j))
      → ((a : A) → KeepsIf s (f a))
      → KeepsIf s (and_then m f)
  KeepsIf-and_then (done a) s f h = h a
  KeepsIf-and_then panic s f h = tt

  KeepsIf-moved :
      (now : ℕ) (dx dy : ℤ) (active : Option String) (s : Server j)
      → KeepsIf s (moved j queues now dx dy active s)
  unfolding moved
  KeepsIf-moved now dx dy (some name) s = Keeps-move_active now dx dy name s
  KeepsIf-moved now dx dy none s =
      KeepsIf-and_then (check_edge j s s.mouse_x s.mouse_y) s _ λ found. Keeps-enter_client found s

  KeepsIf-move_mouse :
      (now : ℕ) (dx dy : ℤ) (s : Server j) → KeepsIf s (move_mouse j queues now dx dy s)
  unfolding move_mouse
  KeepsIf-move_mouse now dx dy s =
      KeepsIf-and_then
        (clamp (pos 0) (sub_i32 s.config.screen_width (pos 1)) (add_i32 s.mouse_x dx)) s _
        λ x.
          KeepsIf-and_then
            (clamp (pos 0) (sub_i32 s.config.screen_height (pos 1)) (add_i32 s.mouse_y dy)) s _
            λ y. KeepsIf-moved now dx dy s.active_client (record s { mouse_x = x; mouse_y = y })

  KeepsIf-handle_input :
      (now : ℕ) (event : CaptureEvent) (s : Server j)
      → KeepsIf s (handle_input j queues now event s)
  unfolding handle_input
  KeepsIf-handle_input now (mouse_move dx dy) s = KeepsIf-move_mouse now dx dy s
  KeepsIf-handle_input now (key code value) s =
      Keeps-forward_to_active (Builders.key_event j code value) true s s.active_client refl
  KeepsIf-handle_input now (mouse_button code value) s =
      Keeps-forward_to_active (Builders.mouse_button j code value) true s s.active_client refl
  KeepsIf-handle_input now (mouse_scroll dx dy) s =
      Keeps-forward_to_active (Builders.mouse_scroll j dx dy) false s s.active_client refl

  Keeps-send_each :
      (msg : Message j.Value) (names : List String) (s : Server j)
      → Keeps s (send_each j queues msg names s)
  unfolding send_each
  Keeps-send_each msg [] s = refl
  Keeps-send_each msg (name ∷ more) s =
      Keeps-send_each msg more (send_to j queues name msg s).1 ∙ Keeps-send_to name msg s

  Keeps-apply_clipboard :
      (name : String) (content : Option String) (s : Server j)
      → Keeps s (apply_clipboard j queues name content s)
  unfolding apply_clipboard set_clipboard
  Keeps-apply_clipboard name none s = refl
  Keeps-apply_clipboard name (some content) s =
      let t = set_clipboard j content s in
      let msg = Builders.clipboard_data j content in
      let names = other_names j name s.clients in
      Keeps-if s.config.clipboard_sharing s (send_each j queues msg names t) s
        (Keeps-send_each msg names t) refl

  Keeps-handle_message_type :
      (name : String) (msg : Message j.Value) (type : MessageType) (s : Server j)
      → Keeps s (handle_message_type j queues name msg type s)
  unfolding handle_message_type
  Keeps-handle_message_type name msg switch_to_server s =
      Keeps-if (is_active j s name) s _ _ (deactivate-clients name s) refl
  Keeps-handle_message_type name msg clipboard_data s =
      Keeps-apply_clipboard name (str_field j msg "content") s
  Keeps-handle_message_type name msg _ s = refl

  handle_event_other :
      (now : ℕ) (event : ServerEvent j) (s : Server j)
      → IsOther event
      → KeepsIf s (handle_event j queues now event s)
  unfolding handle_event handle_client_message broadcast_clipboard
  handle_event_other now (new_client name info) s h = absurd h
  handle_event_other now (client_disconnected name) s h = absurd h
  handle_event_other now (input event) s h = KeepsIf-handle_input now event s
  handle_event_other now (client_message name msg) s h =
      Keeps-handle_message_type name msg msg.msg_type s
  handle_event_other now (clipboard_changed content) s h =
      let msg = Builders.clipboard_data j content in
      Keeps-if (has_no_clients j s || s.clipboard_paused) s s
        (send_each j queues msg (names j s.clients) s) refl
        (Keeps-send_each msg (names j s.clients) s)

  -- After an event that neither registers a client nor ends one, the map of clients is what it was.
  pub handle_event-clients :
      (now : ℕ) (event : ServerEvent j) (s t : Server j)
      → IsOther event
      → handle_event j queues now event s ≡ done t
      → t.clients ≡ s.clients
  handle_event-clients now event s t h e = subst (KeepsIf s) e (handle_event_other now event s h)
