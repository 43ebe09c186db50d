-- ===== src/Server/Input.antt =====
-- src/server.rs: `handle_input` and `forward_to_active`.
use bluecross.Base.{
  ℕ, ◌-◌, ◌*◌, Bool, true, false, Option, none, some, String, ℤ, pos, eqb_ℤ, ◌||◌, ◌&&◌, not, leb,
  Outcome, done, and_then, if◌then◌else◌,
}
use bluecross.Base.Words.{add_i32, sub_i32, clamp}
use bluecross.Json.{Json}
use bluecross.Protocol.{Message}
use bluecross.Protocol.Builders
use bluecross.Capture.{CaptureEvent, key, mouse_move, mouse_button, mouse_scroll}
use bluecross.Server.State.{Server, Queues, grab_devices, deactivate, send_to}
use bluecross.Server.Edge.{Entry, check_edge}

-- `Duration::from_millis(2)`
abbrev pub flush_interval : ℕ
flush_interval = 2 * 1_000_000

module _ (j : Json) where
  open j use {Value}

  -- The pending motion as a message.
  abbrev pub pending_motion : Server j → Message Value
  pending_motion s = Builders.mouse_move j s.mouse_x s.mouse_y s.pending_dx s.pending_dy

  abbrev pub add_pending : ℤ → ℤ → Server j → Server j
  add_pending dx dy s = record s {
    pending_dx = add_i32 s.pending_dx dx;
    pending_dy = add_i32 s.pending_dy dy;
  }

  -- What follows `send_to` of the motion, by its answer.
  unfoldable pub after_motion : String → ℕ → Bool × Server j → Server j
  after_motion name now (true, s) = record s {
    pending_dx = pos 0;
    pending_dy = pos 0;
    last_flush = now;
  }
  after_motion name now (false, s) = deactivate j name s

  unfoldable pub move_active : Queues j → ℕ → ℤ → ℤ → String → Server j → Server j
  unfolding after_motion
  move_active queues now dx dy name s =
      let t = add_pending dx dy s in
      if leb flush_interval (now - t.last_flush)
      then after_motion name now (send_to j queues name (pending_motion t) t)
      else t

  unfoldable pub after_switch : String → Bool × Server j → Server j
  after_switch name (true, s) = s
  after_switch name (false, s) = deactivate j name s

  unfoldable pub enter_client : Queues j → Option Entry → Server j → Server j
  unfolding after_switch grab_devices
  enter_client queues none s = s
  enter_client queues (some (name, entry_x, entry_y)) s =
      let t = record (grab_devices j (record s { active_client = some name })) {
        clipboard_paused = true;
      } in
      after_switch name (send_to j queues name (Builders.switch_to_client j entry_x entry_y) t)

  -- The rest of the arm, once the cursor has moved.
  unfoldable pub moved : Queues j → ℕ → ℤ → ℤ → Option String → Server j → Outcome (Server j)
  unfolding move_active enter_client
  moved queues now dx dy (some name) s = done (move_active queues now dx dy name s)
  moved queues now dx dy none s =
      and_then (check_edge j s s.mouse_x s.mouse_y) (λ found. done (enter_client queues found s))

  unfoldable pub move_mouse : Queues j → ℕ → ℤ → ℤ → Server j → Outcome (Server j)
  unfolding moved
  move_mouse queues now dx dy s =
      and_then (clamp (pos 0) (sub_i32 s.config.screen_width (pos 1)) (add_i32 s.mouse_x dx)) λ x.
        and_then (clamp (pos 0) (sub_i32 s.config.screen_height (pos 1)) (add_i32 s.mouse_y dy))
          λ y. moved queues now dx dy s.active_client (record s { mouse_x = x; mouse_y = y })

  unfoldable pub send_or_deactivate : Queues j → String → Message Value → Server j → Server j
  unfolding after_switch
  send_or_deactivate queues name msg s = after_switch name (send_to j queues name msg s)

  -- What follows the flush of the motion: its message, unless the client is gone.
  unfoldable pub after_flush : Queues j → String → Message Value → Bool × Server j → Server j
  unfolding send_or_deactivate
  after_flush queues name msg (true, s) = send_or_deactivate queues name msg s
  after_flush queues name msg (false, s) = deactivate j name s

  unfoldable pub forward : Queues j → String → Message Value → Bool → Server j → Server j
  unfolding after_flush
  forward queues name msg flush_motion s =
      if flush_motion && (not (eqb_ℤ s.pending_dx (pos 0)) || not (eqb_ℤ s.pending_dy (pos 0)))
      then after_flush queues name msg (
          send_to j queues name (pending_motion s)
            (record s { pending_dx = pos 0; pending_dy = pos 0 }))
      else send_or_deactivate queues name msg s

  unfoldable pub forward_to_active : Queues j → Message Value → Bool → Server j → Server j
  unfolding forward
  forward_to_active queues msg flush_motion s = elim s.active_client [
    | none ↦ s
    | some name ↦ forward queues name msg flush_motion s
  ]

  unfoldable pub handle_input : Queues j → ℕ → CaptureEvent → Server j → Outcome (Server j)
  unfolding move_mouse forward_to_active
  handle_input queues now (mouse_move dx dy) s = move_mouse queues now dx dy s
  handle_input queues now (key code value) s =
      done (forward_to_active queues (Builders.key_event j code value) true s)
  handle_input queues now (mouse_button code value) s =
      done (forward_to_active queues (Builders.mouse_button j code value) true s)
  handle_input queues now (mouse_scroll dx dy) s =
      done (forward_to_active queues (Builders.mouse_scroll j dx dy) false s)
