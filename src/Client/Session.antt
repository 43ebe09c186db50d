-- ===== src/Client/Session.antt =====
-- src/client.rs: the event loop of `run_async`.
use bluecross.Base.{
  ℕ, Bool, true, false, List, [], ◌∷◌, ◌++◌, String, ℤ, pos, eqb_ℤ, ◌||◌, not, Outcome, done,
  and_then, if◌then◌else◌,
}
use bluecross.Base.Words.{add_i32, sub_i32, clamp}
use bluecross.Json.{Json}
use bluecross.Protocol.{Message}
use bluecross.Protocol.Builders
use bluecross.Inject.{inject_mouse_move}
use bluecross.Client.State.{ClientState, Readings, check_exit_edge}
use bluecross.Client.Apply.{send, Client, apply_message, then_emit}

module _ (j : Json) where
  open j use {Value}

  -- A round of the loop goes on, leaves the loop, or returns an error of the writer.
  pub data Round : Type 0 where
    running : Client j → Round
    stopped : Client j → Round
    failed : Client j → Round

  -- `writer.send(&msg).await?; writer.flush().await?;`: `alive` is whether both succeed.
  abbrev pub send_and_flush : Bool → Message Value → Client j → Round
  send_and_flush alive msg c =
      let t = record c { effects = c.effects ++ send msg ∷ [] } in
      if alive then running t else failed t

  -- The messages that are queued, with the times at which they are applied.
  unfoldable pub drain_queue : List (ℕ × Message Value) → ℤ × ℤ → Client j → (ℤ × ℤ) × Client j
  drain_queue [] total c = (total, c)
  drain_queue ((now, msg) ∷ more) total c =
      let (d, t) = apply_message j now msg c in
      drain_queue more (add_i32 total.0 d.0, add_i32 total.1 d.1) t

  unfoldable pub finish_motion : Bool → ℤ × ℤ → Bool × ClientState → Client j → Round
  finish_motion alive total (true, s) c =
      send_and_flush alive (Builders.switch_to_server j)
        (record c { state = record s { active = false } })
  finish_motion alive total (false, s) c =
      running (then_emit j (inject_mouse_move c.injector total.0 total.1) (record c { state = s }))

  unfoldable pub apply_motion : Bool → Readings → ℤ × ℤ → Client j → Outcome Round
  unfolding finish_motion
  apply_motion alive t total c =
      let s = c.state in
      and_then (clamp (pos 0) (sub_i32 s.config.screen_width (pos 1)) (add_i32 s.mouse_x total.0))
        λ x.
          and_then
            (clamp (pos 0) (sub_i32 s.config.screen_height (pos 1)) (add_i32 s.mouse_y total.1))
            λ y. done (
              finish_motion alive total
                (check_exit_edge t x y total.0 total.1 (record s { mouse_x = x; mouse_y = y })) c)

  abbrev pub is_motion : ℤ × ℤ → Bool
  is_motion total = not (eqb_ℤ total.0 (pos 0)) || not (eqb_ℤ total.1 (pos 0))

  unfoldable pub after_drain : Bool → Readings → (ℤ × ℤ) × Client j → Outcome Round
  unfolding apply_motion
  after_drain alive t (total, c) =
      if is_motion total then apply_motion alive t total c else done (running c)

  unfoldable pub handle_messages :
      Bool → Readings → ℕ → Message Value → List (ℕ × Message Value) → Client j → Outcome Round
  unfolding after_drain drain_queue
  handle_messages alive t now first queued c =
      let (total, d) = apply_message j now first c in
      after_drain alive t (drain_queue queued total d)

  pub data ClientEvent : Type 0 where
    heartbeat_tick : Bool → ClientEvent
    messages : Bool → Readings → ℕ → Message Value → List (ℕ × Message Value) → ClientEvent
    connection_lost : ClientEvent
    clipboard_changed : Bool → String → ClientEvent
    signal : ClientEvent

  unfoldable pub handle_event : ClientEvent → Client j → Outcome Round
  unfolding handle_messages
  handle_event (heartbeat_tick alive) c = done (send_and_flush alive (Builders.heartbeat j) c)
  handle_event (messages alive t now first queued) c = handle_messages alive t now first queued c
  handle_event connection_lost c = done (stopped c)
  handle_event (clipboard_changed alive content) c =
      done (send_and_flush alive (Builders.clipboard_data j content) c)
  handle_event signal c = done (stopped c)
