-- ===== src/Server/Grabs/Kept.antt =====
-- src/server.rs: the handlers, the kernel's grabs and the server's flag.
use bluecross.Base.{
  ℕ, ◌-◌, ◌≡◌, refl, ◌∙◌, Bool, true, false, Option, none, some, List, [], ◌∷◌, String, ℤ, pos,
  arith, inl, inr, Option-cases, and_then-eq-done, done, if◌then◌else◌, leb,
}
use bluecross.Base.Words.{sub_i32, add_i32, clamp}
use bluecross.Base.Maps.{lookup}
use bluecross.Json.{Json}
use bluecross.Protocol.{Message}
use bluecross.Protocol.Builders
use bluecross.Capture.{CaptureEvent, key, mouse_move, mouse_button, mouse_scroll}
use bluecross.Server.Edge.{Entry, check_edge}
use bluecross.Server.State.{
  Server, Queues, try_send, grab_devices, ungrab_devices, center_cursor, deactivate, is_active,
  send_to,
}
use bluecross.Server.Input.{
  after_motion, move_active, after_switch, enter_client, moved, move_mouse, send_or_deactivate,
  after_flush, forward, forward_to_active, handle_input, add_pending, pending_motion,
  flush_interval,
}
use bluecross.Server.Grabs.{
  IsFaithful, grab_after-append, grab_devices-IsFaithful, ungrab_devices-IsFaithful,
}

module _ {j : Json} (queues : Queues j) (fds : List ℕ) where
  abbrev pub F : Server j → Type 0
  F s = IsFaithful j fds s

  pub if-F : (test : Bool) (s t : Server j) → F s → F t → F (if test then s else t)
  if-F true s t h k = h
  if-F false s t h k = k

  -- Fields other than these three do not matter.
  pub same-F :
      (s t : Server j)
      → F s
      → t.calls ≡ s.calls
      → t.grabbed ≡ s.grabbed
      → t.device_fds ≡ s.device_fds
      → F t
  same-F s t h e f g = record { device_fds = g ∙ h.device_fds; held = λ fd. rw (e, f) (h.held fd) }

  pub send_to-F :
      (name : String) (msg : Message j.Value) (s : Server j)
      → F s
      → F (send_to j queues name msg s).1
  unfolding send_to
  send_to-F name msg s h = elim (Option-cases (lookup name s.clients)) [
    | inl e ↦ same-F s _ h (ground arith) (ground arith) (ground arith)
    | inr (client, e) ↦ record {
      device_fds = ground (arith, h.device_fds);
      held = λ fd.
          ground (
            arith,
            e,
            h.held fd,
            grab_after-append j fd false s.calls (try_send client.tx msg ∷ []),
          );
    }
  ]

  pub deactivate-F : (name : String) (s : Server j) → F s → F (deactivate j name s)
  unfolding deactivate center_cursor
  deactivate-F name s h =
      let u = ungrab_devices j (record s { active_client = none }) in
      let k : F u =
        ungrab_devices-IsFaithful j fds (record s { active_client = none })
          (same-F s _ h refl refl refl) in
      if-F (is_active j s name) (center_cursor j (record u { clipboard_paused = false })) s
        (same-F u (center_cursor j (record u { clipboard_paused = false })) k refl refl refl) h

  -- The branches on the answer of `send_to`.
  after_switch-F : (name : String) (r : Bool × Server j) → F r.1 → F (after_switch j name r)
  unfolding after_switch
  after_switch-F name (true, s) h = h
  after_switch-F name (false, s) h = deactivate-F name s h

  after_motion-F :
      (name : String) (now : ℕ) (r : Bool × Server j) → F r.1 → F (after_motion j name now r)
  unfolding after_motion
  after_motion-F name now (true, s) h = same-F s _ h refl refl refl
  after_motion-F name now (false, s) h = deactivate-F name s h

  send_or_deactivate-F :
      (name : String) (msg : Message j.Value) (s : Server j)
      → F s
      → F (send_or_deactivate j queues name msg s)
  unfolding send_or_deactivate
  send_or_deactivate-F name msg s h = after_switch-F name _ (send_to-F name msg s h)

  after_flush-F :
      (name : String) (msg : Message j.Value) (r : Bool × Server j)
      → F r.1
      → F (after_flush j queues name msg r)
  unfolding after_flush
  after_flush-F name msg (true, s) h = send_or_deactivate-F name msg s h
  after_flush-F name msg (false, s) h = deactivate-F name s h

  forward-F :
      (name : String) (msg : Message j.Value) (flush_motion : Bool) (s : Server j)
      → F s
      → F (forward j queues name msg flush_motion s)
  unfolding forward
  forward-F name msg flush_motion s h =
      let t = record s { pending_dx = pos 0; pending_dy = pos 0 } in
      if-F _ _ _
        (after_flush-F name msg _
          (send_to-F name (pending_motion j s) t (same-F s t h refl refl refl)))
        (send_or_deactivate-F name msg s h)

  forward_to_active-F :
      (msg : Message j.Value) (flush_motion : Bool) (s : Server j) (active : Option String)
      → s.active_client ≡ active
      → F s
      → F (forward_to_active j queues msg flush_motion s)
  unfolding forward_to_active
  forward_to_active-F msg flush_motion s none e h = rw (e, forward_to_active) h
  forward_to_active-F msg flush_motion s (some name) e h =
      rw (e, forward_to_active) (forward-F name msg flush_motion s h)

  move_active-F :
      (now : ℕ) (dx dy : ℤ) (name : String) (s : Server j)
      → F s
      → F (move_active j queues now dx dy name s)
  unfolding move_active
  move_active-F now dx dy name s h =
      let t = add_pending j dx dy s in
      let k : F t = same-F s t h refl refl refl in
      if-F (leb flush_interval (now - t.last_flush)) _ t
        (after_motion-F name now _ (send_to-F name (pending_motion j t) t k)) k

  enter_client-F : (found : Option Entry) (s : Server j) → F s → F (enter_client j queues found s)
  unfolding enter_client
  enter_client-F none s h = h
  enter_client-F (some (name, x, y)) s h =
      let a = record s { active_client = some name } in
      let g = grab_devices j a in
      let k : F g = grab_devices-IsFaithful j fds a (same-F s a h refl refl refl) in
      after_switch-F name _ (
        send_to-F name (Builders.switch_to_client j x y) (record g { clipboard_paused = true })
          (same-F g _ k refl refl refl))

  moved-F :
      (now : ℕ) (dx dy : ℤ) (active : Option String) (s t : Server j)
      → F s
      → moved j queues now dx dy active s ≡ done t
      → F t
  unfolding moved
  moved-F now dx dy (some name) s t h e =
      let same : move_active j queues now dx dy name s ≡ t = cc in
      rw same at (move_active-F now dx dy name s h)
  moved-F now dx dy none s t h e =
      let (found, d, f) = and_then-eq-done (check_edge j s s.mouse_x s.mouse_y) _ e in
      let same : enter_client j queues found s ≡ t = cc in rw same at (enter_client-F found s h)

  forwarded :
      (msg : Message j.Value) (flush_motion : Bool) (s t : Server j)
      → F s
      → done (forward_to_active j queues msg flush_motion s) ≡ done t
      → F t
  forwarded msg flush_motion s t h e =
      let same : forward_to_active j queues msg flush_motion s ≡ t = cc in
      rw same at (forward_to_active-F msg flush_motion s s.active_client refl h)

  pub handle_input-F :
      (now : ℕ) (event : CaptureEvent) (s t : Server j)
      → F s
      → handle_input j queues now event s ≡ done t
      → F t
  unfolding handle_input move_mouse
  handle_input-F now (mouse_move dx dy) s t h e =
      let (x, d, e₁) =
        and_then-eq-done
          (clamp (pos 0) (sub_i32 s.config.screen_width (pos 1)) (add_i32 s.mouse_x dx)) _ e in
      let (y, d₁, e₂) =
        and_then-eq-done
          (clamp (pos 0) (sub_i32 s.config.screen_height (pos 1)) (add_i32 s.mouse_y dy)) _ e₁ in
      moved-F now dx dy s.active_client _ t (same-F s _ h refl refl refl) e₂
  handle_input-F now (key code value) s t h e =
      forwarded (Builders.key_event j code value) true s t h e
  handle_input-F now (mouse_button code value) s t h e =
      forwarded (Builders.mouse_button j code value) true s t h e
  handle_input-F now (mouse_scroll dx dy) s t h e =
      forwarded (Builders.mouse_scroll j dx dy) false s t h e
