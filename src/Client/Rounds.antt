-- ===== src/Client/Rounds.antt =====
-- src/client.rs: what a round of the event loop leaves behind.
use bluecross.Base.{
  suc, ◌≡◌, refl, ◌∙◌, ap, subst, Bool, true, false, [], ◌∷◌, ◌++◌, ℤ, pos, arith, ◌⊎◌, inl, inr,
  done, and_then-eq-done, Bool-cases,
}
use bluecross.Base.Words.{add_i32, sub_i32, clamp}
use bluecross.Json.{Json}
use bluecross.Protocol.{Message}
use bluecross.Protocol.Builders
use bluecross.Inject.{inject_mouse_move}
use bluecross.Client.State.{ClientState, Readings, check_exit_edge, push_edge}
use bluecross.Client.Apply.{apply_type, send, Client, apply_message}
use bluecross.Client.Session.{
  Round, running, stopped, ClientEvent, heartbeat_tick, messages, connection_lost,
  clipboard_changed, signal, drain_queue, apply_motion, finish_motion, send_and_flush, after_drain,
  handle_messages, handle_event, is_motion,
}
use bluecross.Server.Invariant.{IsScreen}
use bluecross.Client.Release.{
  releases, releases-append, client_of, Keeps, Releases, Keeps-refl, Keeps-trans, then_emit-Keeps,
  apply_type-Keeps, drain_queue-Keeps,
}
use bluecross.Client.Screen.{apply_motion-IsOnScreen}

module _ (j : Json) where
  -- What every round does about control.
  abbrev pub Hands : Client j → Client j → Type 0
  Hands c d = Keeps j c d ⊎ Releases j c d

  Keeps-Hands : (c d e : Client j) → Keeps j c d → Hands d e → Hands c e
  Keeps-Hands c d e h (inl k) = inl (Keeps-trans j c d e h k)
  Keeps-Hands c d e h (inr k) = inr (record {
    once = k.once ∙ ap suc h.quiet;
    inactive = k.inactive;
    config = k.config ∙ h.config;
  })

  client_of-send_and_flush :
      (alive : Bool) (msg : Message j.Value) (c : Client j)
      → client_of j (send_and_flush j alive msg c)
        ≡ record c { effects = c.effects ++ send msg ∷ [] }
  client_of-send_and_flush true msg c = refl
  client_of-send_and_flush false msg c = refl

  send-Keeps :
      (msg : Message j.Value) (c : Client j)
      → releases j (send msg ∷ []) ≡ 0
      → Keeps j c (record c { effects = c.effects ++ send msg ∷ [] })
  send-Keeps msg c e = record {
    quiet = omega (arith, releases-append j c.effects (send msg ∷ []));
    active = λ h. h;
    config = refl;
  }

  send-Hands :
      (alive : Bool) (msg : Message j.Value) (c : Client j)
      → releases j (send msg ∷ []) ≡ 0
      → Hands c (client_of j (send_and_flush j alive msg c))
  send-Hands alive msg c e = inl (rw (client_of-send_and_flush alive msg c) (send-Keeps msg c e))

  kept : (c : Client j) → Hands c c
  kept c = inl (Keeps-refl j c)

  -- `check_exit_edge` touches neither the flag nor the configuration.
  check_exit_edge-config :
      (t : Readings) (x y dx dy : ℤ) (s : ClientState)
      → (check_exit_edge t x y dx dy s).1.config ≡ s.config
  unfolding check_exit_edge push_edge
  check_exit_edge-config t x y dx dy s = ground arith

  pub check_exit_edge-active :
      (t : Readings) (x y dx dy : ℤ) (s : ClientState)
      → (check_exit_edge t x y dx dy s).1.active ≡ s.active
  unfolding check_exit_edge push_edge
  check_exit_edge-active t x y dx dy s = ground arith

  finish_motion-Hands :
      (alive : Bool) (total : ℤ × ℤ) (r : Bool × ClientState) (c : Client j)
      → r.1.active ≡ c.state.active
      → r.1.config ≡ c.state.config
      → Hands c (client_of j (finish_motion j alive total r c))
  unfolding finish_motion Builders.switch_to_server
  finish_motion-Hands alive total (true, s) c e f = inr (
      rw
        (client_of-send_and_flush alive (Builders.switch_to_server j)
          (record c { state = record s { active = false } }))
        (record {
          once =
              omega (arith, releases-append j c.effects (send (Builders.switch_to_server j) ∷ []));
          inactive = refl;
          config = f;
        }))
  finish_motion-Hands alive total (false, s) c e f = inl (
      Keeps-trans j c (record c { state = s }) _
        (record { quiet = refl; active = λ a. e ∙ a; config = f })
        (then_emit-Keeps j (inject_mouse_move c.injector total.0 total.1) (record c { state = s })))

  apply_motion-Hands :
      (alive : Bool) (t : Readings) (total : ℤ × ℤ) (c : Client j) (r : Round j)
      → apply_motion j alive t total c ≡ done r
      → Hands c (client_of j r)
  unfolding apply_motion
  apply_motion-Hands alive t total c r e =
      let s = c.state in
      let (x, d₁, e₁) =
        and_then-eq-done
          (clamp (pos 0) (sub_i32 s.config.screen_width (pos 1)) (add_i32 s.mouse_x total.0)) _ e in
      let (y, d₂, e₂) =
        and_then-eq-done
          (clamp (pos 0) (sub_i32 s.config.screen_height (pos 1)) (add_i32 s.mouse_y total.1)) _
          e₁ in
      let q = check_exit_edge t x y total.0 total.1 (record s { mouse_x = x; mouse_y = y }) in
      let same : finish_motion j alive total q c ≡ r = cc in
      rw same at (
        finish_motion-Hands alive total q c
          (check_exit_edge-active t x y total.0 total.1 (record s { mouse_x = x; mouse_y = y }))
          (check_exit_edge-config t x y total.0 total.1 (record s { mouse_x = x; mouse_y = y })))

  after_drain-Hands :
      (alive : Bool) (t : Readings) (q : (ℤ × ℤ) × Client j) (r : Round j)
      → after_drain j alive t q ≡ done r
      → Hands q.1 (client_of j r)
  unfolding after_drain
  after_drain-Hands alive t (total, c) r e = elim (Bool-cases (is_motion j total)) [
    | inl m ↦ apply_motion-Hands alive t total c r (rw m at e)
    | inr m ↦
        let same : running c ≡ r = cc (rw m at e) in
        subst (λ d. Hands c d) (ap (client_of j) same) (kept c)
  ]

  handle_event-eq-Hands :
      (event : ClientEvent j) (c : Client j) (r : Round j)
      → handle_event j event c ≡ done r
      → Hands c (client_of j r)
  unfolding handle_event handle_messages apply_message Builders.heartbeat Builders.clipboard_data
  handle_event-eq-Hands (heartbeat_tick alive) c r e =
      let same : send_and_flush j alive (Builders.heartbeat j) c ≡ r = cc in
      rw same at (send-Hands alive (Builders.heartbeat j) c refl)
  handle_event-eq-Hands (messages alive t now first queued) c r e =
      let f = apply_message j now first c in
      Keeps-Hands c (drain_queue j queued f.0 f.1).1 (client_of j r)
        (Keeps-trans j c f.1 _ (apply_type-Keeps j now first.msg_type first.payload c)
          (drain_queue-Keeps j queued f.0 f.1))
        (after_drain-Hands alive t (drain_queue j queued f.0 f.1) r e)
  handle_event-eq-Hands connection_lost c r e =
      let same : stopped c ≡ r = cc in subst (λ d. Hands c d) (ap (client_of j) same) (kept c)
  handle_event-eq-Hands (clipboard_changed alive content) c r e =
      let same : send_and_flush j alive (Builders.clipboard_data j content) c ≡ r = cc in
      rw same at (send-Hands alive (Builders.clipboard_data j content) c refl)
  handle_event-eq-Hands signal c r e =
      let same : stopped c ≡ r = cc in subst (λ d. Hands c d) (ap (client_of j) same) (kept c)

  after_drain-total :
      (alive : Bool) (t : Readings) (q : (ℤ × ℤ) × Client j)
      → IsScreen q.1.state.config.screen_width q.1.state.config.screen_height
      → (r : Round j) × (after_drain j alive t q ≡ done r)
  unfolding after_drain
  after_drain-total alive t (total, c) h = elim (Bool-cases (is_motion j total)) [
    | inl m ↦ (let (r, e, k) = apply_motion-IsOnScreen j alive t total c h in (r, rw m e))
    | inr m ↦ (running c, rw m)
  ]

  handle_event-total :
      (event : ClientEvent j) (c : Client j)
      → IsScreen c.state.config.screen_width c.state.config.screen_height
      → (r : Round j) × (handle_event j event c ≡ done r)
  unfolding handle_event handle_messages apply_message
  handle_event-total (messages alive t now first queued) c h =
      let f = apply_type j now first.msg_type first.payload c in
      let k : Keeps j c (drain_queue j queued f.0 f.1).1 =
        Keeps-trans j c f.1 _ (apply_type-Keeps j now first.msg_type first.payload c)
          (drain_queue-Keeps j queued f.0 f.1) in
      after_drain-total alive t (drain_queue j queued f.0 f.1) (rw k.config h)
  handle_event-total (heartbeat_tick alive) c h = (_, refl)
  handle_event-total connection_lost c h = (_, refl)
  handle_event-total (clipboard_changed alive content) c h = (_, refl)
  handle_event-total signal c h = (_, refl)

  -- On a client with a valid screen no round of the event loop panics. In each, the client either
  -- gives nothing back and stays active if it was, or sends `SwitchToServer` exactly once and is
  -- then inactive: it never drops control silently, and never announces it while it keeps it. The
  -- configuration stays as it is.
  pub handle_event-Hands :
      (event : ClientEvent j) (c : Client j)
      → IsScreen c.state.config.screen_width c.state.config.screen_height
      → (r : Round j) × (handle_event j event c ≡ done r) × Hands c (client_of j r)
  handle_event-Hands event c h =
      let (r, e) = handle_event-total event c h in (r, e, handle_event-eq-Hands event c r e)
