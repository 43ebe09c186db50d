-- ===== src/Server/Invariant/Moves.antt =====
-- src/server.rs: input events and the invariant.
use bluecross.Base.{
  ℕ, ◌-◌, ◌≡◌, refl, Bool, true, false, Option, none, some, String, ℤ, pos, negsuc, ◌≤ℤ◌, ◌<ℤ◌,
  arith, leb, Outcome, done,
}
use bluecross.Base.Words.{
  clamp, clamp_to, clamp-ordered, clamp_to-bounds, sub_i32, sub_i32-one, add_i32, InI32,
}
use bluecross.Json.{Json}
use bluecross.Protocol.{Message}
use bluecross.Protocol.Builders
use bluecross.Capture.{CaptureEvent, key, mouse_move, mouse_button, mouse_scroll}
use bluecross.Server.State.{Server, Queues, send_to, grab_devices}
use bluecross.Server.Edge.{Entry}
use bluecross.Server.Edge.Entry.{
  IsFoundIn, first_entry, first_entry-IsFoundIn, check_edge-first_entry,
}
use bluecross.Server.Input.{
  move_mouse, moved, move_active, enter_client, after_motion, after_switch, forward,
  forward_to_active, after_flush, send_or_deactivate, handle_input, add_pending, pending_motion,
  flush_interval,
}
use bluecross.Server.Invariant.{IsKnown, Inv}
use bluecross.Server.Invariant.Parts.{
  if-Inv, deactivate-Inv, send_to-Inv, grab_devices-clients, grab_devices-active_client,
}

module _ {j : Json} (queues : Queues j) where
  -- The branches on the answer of `send_to`.
  after_switch-Inv :
      (name : String) (alive : Bool) (s : Server j) → Inv s → Inv (after_switch j name (alive, s))
  unfolding after_switch
  after_switch-Inv name true s h = h
  after_switch-Inv name false s h = deactivate-Inv name s h

  after_motion-Inv :
      (name : String) (now : ℕ) (alive : Bool) (s : Server j)
      → Inv s
      → Inv (after_motion j name now (alive, s))
  unfolding after_motion
  after_motion-Inv name now true s h = ground arith
  after_motion-Inv name now false s h = deactivate-Inv name s h

  send_or_deactivate-Inv :
      (name : String) (msg : Message j.Value) (s : Server j)
      → Inv s
      → Inv (send_or_deactivate j queues name msg s)
  unfolding send_or_deactivate
  send_or_deactivate-Inv name msg s h =
      after_switch-Inv name _ (send_to j queues name msg s).1 (send_to-Inv queues name msg s h)

  after_flush-Inv :
      (name : String) (msg : Message j.Value) (alive : Bool) (s : Server j)
      → Inv s
      → Inv (after_flush j queues name msg (alive, s))
  unfolding after_flush
  after_flush-Inv name msg true s h = send_or_deactivate-Inv name msg s h
  after_flush-Inv name msg false s h = deactivate-Inv name s h

  -- Pending motion may change while a client is active.
  pending-Inv :
      (dx dy : ℤ) (name : String) (s : Server j)
      → s.active_client ≡ some name
      → Inv s
      → Inv (record s { pending_dx = dx; pending_dy = dy })
  pending-Inv dx dy name s e h = ground arith

  forward-Inv :
      (name : String) (msg : Message j.Value) (flush_motion : Bool) (s : Server j)
      → s.active_client ≡ some name
      → Inv s
      → Inv (forward j queues name msg flush_motion s)
  unfolding forward
  forward-Inv name msg flush_motion s e h =
      let t = record s { pending_dx = pos 0; pending_dy = pos 0 } in
      if-Inv _ _ _
        (after_flush-Inv name msg _ (send_to j queues name (pending_motion j s) t).1
          (send_to-Inv queues name (pending_motion j s) t (pending-Inv (pos 0) (pos 0) name s e h)))
        (send_or_deactivate-Inv name msg s h)

  forward_to_active-Inv :
      (msg : Message j.Value) (flush_motion : Bool) (s : Server j) (active : Option String)
      → s.active_client ≡ active
      → Inv s
      → Inv (forward_to_active j queues msg flush_motion s)
  unfolding forward_to_active
  forward_to_active-Inv msg flush_motion s none e h = rw (e, forward_to_active) h
  forward_to_active-Inv msg flush_motion s (some name) e h =
      rw (e, forward_to_active) (forward-Inv name msg flush_motion s e h)

  move_active-Inv :
      (now : ℕ) (dx dy : ℤ) (name : String) (s : Server j)
      → s.active_client ≡ some name
      → Inv s
      → Inv (move_active j queues now dx dy name s)
  unfolding move_active
  move_active-Inv now dx dy name s e h =
      let t = add_pending j dx dy s in
      let k : Inv t = pending-Inv (add_i32 s.pending_dx dx) (add_i32 s.pending_dy dy) name s e h in
      if-Inv (leb flush_interval (now - t.last_flush)) _ _
        (after_motion-Inv name now _ (send_to j queues name (pending_motion j t) t).1
          (send_to-Inv queues name (pending_motion j t) t k))
        k

  enter_client-Inv :
      (found : Option Entry) (s : Server j)
      → s.active_client ≡ none
      → IsFoundIn found s.clients
      → Inv s
      → Inv (enter_client j queues found s)
  unfolding enter_client
  enter_client-Inv none s e f h = h
  enter_client-Inv (some (name, x, y)) s e f h =
      let msg = Builders.switch_to_client j x y in
      let t = record (grab_devices j (record s { active_client = some name })) {
        clipboard_paused = true;
      } in
      after_switch-Inv name _ (send_to j queues name msg t).1 (
        send_to-Inv queues name msg t (record {
          coherent = ground arith;
          known = known (record s { active_client = some name }) refl f;
        }))
    where
      known :
          (r : Server j)
          → r.active_client ≡ some name
          → IsKnown (some name) r.clients
          → IsKnown (grab_devices j r).active_client (grab_devices j r).clients
      known r a k = rw (grab_devices-active_client r, grab_devices-clients r, a) k

  -- The handler ends, and its state satisfies the invariant.
  abbrev pub Keeps : Outcome (Server j) → Type 0
  Keeps r = (t : Server j) × (r ≡ done t) × Inv t

  moved-Keeps :
      (now : ℕ) (dx dy : ℤ) (active : Option String) (s : Server j)
      → s.active_client ≡ active
      → Inv s
      → Keeps (moved j queues now dx dy active s)
  unfolding moved
  moved-Keeps now dx dy none s e h =
      let found = first_entry s.config s.mouse_x s.mouse_y s.clients in
      (
        enter_client j queues found s,
        rw (
            check_edge-first_entry j s s.mouse_x s.mouse_y
              (record { wide = h.coherent.screen.wide; high = h.coherent.screen.high })),
        enter_client-Inv found s e (first_entry-IsFoundIn s.config s.mouse_x s.mouse_y s.clients) h,
      )
  moved-Keeps now dx dy (some name) s e h =
      (move_active j queues now dx dy name s, refl, move_active-Inv now dx dy name s e h)

  -- `clamp` to the screen does not panic, and stays on the screen.
  clamp-screen :
      (w x : ℤ)
      → pos 0 <ℤ w
      → InI32 w
      → (y : ℤ) × (clamp (pos 0) (sub_i32 w (pos 1)) x ≡ done y) × (pos 0 ≤ℤ y) × (y <ℤ w)
  clamp-screen (negsuc n) x h k = absurd (omega arith)
  clamp-screen (pos n) x h k =
      let top = pos (n - 1) in
      let low : pos 0 ≤ℤ top = omega arith in
      let (y_low, y_high) = clamp_to-bounds (pos 0) top x low in
      (
        clamp_to (pos 0) top x,
        rw (sub_i32-one (pos n) h k) (clamp-ordered (pos 0) top x low),
        y_low,
        omega arith,
      )

  move_mouse-Keeps :
      (now : ℕ) (dx dy : ℤ) (s : Server j) → Inv s → Keeps (move_mouse j queues now dx dy s)
  unfolding move_mouse
  move_mouse-Keeps now dx dy s h =
      let (x, ex, x_low, x_high) =
        clamp-screen s.config.screen_width (add_i32 s.mouse_x dx) h.coherent.screen.wide
          h.coherent.screen.width_i32 in
      let (y, ey, y_low, y_high) =
        clamp-screen s.config.screen_height (add_i32 s.mouse_y dy) h.coherent.screen.high
          h.coherent.screen.height_i32 in
      rw (ex, ey)
        (moved-Keeps now dx dy s.active_client (record s { mouse_x = x; mouse_y = y }) refl
          (record {
            coherent = record {
              screen = h.coherent.screen;
              grabbed = h.coherent.grabbed;
              paused = h.coherent.paused;
              x_low = x_low;
              x_high = x_high;
              y_low = y_low;
              y_high = y_high;
              at_rest = h.coherent.at_rest;
            };
            known = h.known;
          }))

  -- On a coherent server no input event panics, and the state is coherent again.
  pub handle_input-Keeps :
      (now : ℕ) (event : CaptureEvent) (s : Server j)
      → Inv s
      → Keeps (handle_input j queues now event s)
  unfolding handle_input
  handle_input-Keeps now (mouse_move dx dy) s h = move_mouse-Keeps now dx dy s h
  handle_input-Keeps now (key code value) s h = (
    _,
    refl,
    forward_to_active-Inv (Builders.key_event j code value) true s s.active_client refl h,
  )
  handle_input-Keeps now (mouse_button code value) s h = (
    _,
    refl,
    forward_to_active-Inv (Builders.mouse_button j code value) true s s.active_client refl h,
  )
  handle_input-Keeps now (mouse_scroll dx dy) s h = (
    _,
    refl,
    forward_to_active-Inv (Builders.mouse_scroll j dx dy) false s s.active_client refl h,
  )
