-- ===== src/Client/Run/Balance.antt =====
-- src/client.rs: how often control is given back, against how often it was given.
use bluecross.Base.{
  ℕ, ◌+◌, ◌≤◌, ◌≡◌, refl, sym, ◌∙◌, ap, subst, Bool, true, false, Bool-cases, ◌⊎◌, inl, inr, List,
  [], ◌∷◌, ℤ, pos, arith, subst⁻¹, Outcome, and_then, done, and_then-eq-done,
}
use bluecross.Base.Words.{add_i32, sub_i32, clamp}
use bluecross.Json.{Json}
use bluecross.Config.{ClientConfig}
use bluecross.Protocol.{Message}
use bluecross.Protocol.Builders
use bluecross.Client.State.{ClientState, Readings, check_exit_edge}
use bluecross.Client.Apply.{send, Client, apply_message}
use bluecross.Client.Session.{
  Round, running, stopped, failed, ClientEvent, heartbeat_tick, messages, connection_lost,
  clipboard_changed, signal, drain_queue, apply_motion, finish_motion, send_and_flush, after_drain,
  handle_messages, handle_event, is_motion,
}
use bluecross.Inject.{inject_mouse_move}
use bluecross.Client.Rounds.{check_exit_edge-active}
use bluecross.Client.Release.{
  Releases, releases, releases-append, client_of, Keeps, then_emit-Keeps,
}
use bluecross.Client.Rounds.{handle_event-Hands}
use bluecross.Client.Run.{close_injector, next_round, client_rounds}
use bluecross.Client.Run.Held.{
  count, entry, entries_queued, entries_of, entries, held, Moves, apply_type-held,
  apply_message-Moves, drain_queue-held, no_motion_still,
}
use bluecross.Server.Invariant.{IsScreen}

module _ {j : Json} where
  send-held :
      (alive : Bool) (msg : Message j.Value) (c : Client j)
      → held (client_of j (send_and_flush j alive msg c)) ≡ held c + releases j (send msg ∷ [])
  send-held true msg c = omega (arith, releases-append j c.effects (send msg ∷ []))
  send-held false msg c = omega (arith, releases-append j c.effects (send msg ∷ []))

  finish_motion-held :
      (alive : Bool) (total : ℤ × ℤ) (r : Bool × ClientState) (c : Client j)
      → r.1.active ≡ c.state.active
      → c.state.active ≡ true
      → held (client_of j (finish_motion j alive total r c)) ≤ held c
  unfolding finish_motion Builders.switch_to_server
  finish_motion-held alive total (true, s) c e a =
      let back = Builders.switch_to_server j in
      omega
        (arith, send-held alive back (record c { state = record s { active = false } }), ap count a)
  finish_motion-held alive total (false, s) c e a =
      let k =
        then_emit-Keeps j (inject_mouse_move c.injector total.0 total.1) (record c { state = s }) in
      omega (arith, k.quiet, ap count e)

  after_drain-held :
      (alive : Bool) (t : Readings) (q : (ℤ × ℤ) × Client j) (r : Round j)
      → after_drain j alive t q ≡ done r
      → Moves q.0 q.1
      → held (client_of j r) ≤ held q.1
  unfolding after_drain apply_motion
  after_drain-held alive t (total, c) r e (inl none_of_it) =
      let same : running c ≡ r = cc (rw (no_motion_still j total none_of_it) at e) in
      subst (λ u. held (client_of j u) ≤ held c) same (omega arith)
  after_drain-held alive t (total, c) r e (inr active) = elim (Bool-cases (is_motion j total)) [
    | inr m ↦
        let same : running c ≡ r = cc (rw m at e) in
        subst (λ u. held (client_of j u) ≤ held c) same (omega arith)
    | inl m ↦
        let s = c.state in
        let (x, d₁, e₁) =
          and_then-eq-done
            (clamp (pos 0) (sub_i32 s.config.screen_width (pos 1)) (add_i32 s.mouse_x total.0)) _
            (rw m at e) in
        let (y, d₂, e₂) =
          and_then-eq-done
            (clamp (pos 0) (sub_i32 s.config.screen_height (pos 1)) (add_i32 s.mouse_y total.1)) _
            e₁ in
        let u = record s { mouse_x = x; mouse_y = y } in
        let q = check_exit_edge t x y total.0 total.1 u in
        let same : finish_motion j alive total q c ≡ r = cc in
        subst (λ v. held (client_of j v) ≤ held c) same
          (finish_motion-held alive total q c (check_exit_edge-active j t x y total.0 total.1 u)
            active)
  ]

  handle_messages-held :
      (alive : Bool) (t : Readings) (now : ℕ) (first : Message j.Value)
      (queued : List (ℕ × Message j.Value)) (c : Client j) (r : Round j)
      → handle_messages j alive t now first queued c ≡ done r
      → held (client_of j r) ≤ held c + (entry first + entries_queued queued)
  unfolding handle_messages
  handle_messages-held alive t now first queued c r e =
      let f = apply_message j now first c in
      let (moves, bound) = drain_queue-held queued f.0 f.1 (apply_message-Moves now first c) in
      omega (
        arith,
        apply_type-held now first c,
        bound,
        after_drain-held alive t (drain_queue j queued f.0 f.1) r e moves,
      )

  plain-held :
      (alive : Bool) (msg : Message j.Value) (c : Client j) (r : Round j)
      → releases j (send msg ∷ []) ≡ 0
      → ◌≡◌ {A = Outcome (Round j)} (done (send_and_flush j alive msg c)) (done r)
      → held (client_of j r) ≤ held c + 0
  plain-held alive msg c r e f =
      let same : send_and_flush j alive msg c ≡ r = cc in
      subst (λ u. held (client_of j u) ≤ held c + 0) same (omega (arith, send-held alive msg c, e))

  stopped-held :
      (c : Client j) (r : Round j)
      → ◌≡◌ {A = Outcome (Round j)} (done (stopped c)) (done r)
      → held (client_of j r) ≤ held c + 0
  stopped-held c r f =
      let same : stopped c ≡ r = cc in
      subst (λ u. held (client_of j u) ≤ held c + 0) same (omega arith)

  handle_event-held :
      (event : ClientEvent j) (c : Client j) (r : Round j)
      → handle_event j event c ≡ done r
      → held (client_of j r) ≤ held c + entries_of event
  unfolding handle_event Builders.heartbeat Builders.clipboard_data
  handle_event-held (heartbeat_tick alive) c r e =
      plain-held alive (Builders.heartbeat j) c r refl e
  handle_event-held (messages alive t now first queued) c r e =
      handle_messages-held alive t now first queued c r e
  handle_event-held connection_lost c r e = stopped-held c r e
  handle_event-held (clipboard_changed alive content) c r e =
      plain-held alive (Builders.clipboard_data j content) c r refl e
  handle_event-held signal c r e = stopped-held c r e

  config_kept : (c d : Client j) → Keeps j c d ⊎ Releases j c d → d.state.config ≡ c.state.config
  config_kept c d (inl k) = k.config
  config_kept c d (inr k) = k.config

  -- What is left of the loop after a round.
  next_round-held :
      (more : List (ClientEvent j)) (r : Round j) (n : ℕ)
      → held (client_of j r) ≤ n
      → ((d : Client j)
          → r ≡ running d
          → (q : Round j) × (client_rounds j more d ≡ done q)
            × (held (client_of j q) ≤ held d + entries more))
      → (q : Round j) × (next_round j (λ d. client_rounds j more d) r ≡ done q)
        × (held (client_of j q) ≤ n + entries more)
  next_round-held more (running d) n h k = let (q, e, b) = k d refl in (q, e, omega (arith, b, h))
  next_round-held more (stopped d) n h k = (stopped (close_injector j d), refl, omega (arith, h))
  next_round-held more (failed d) n h k = (failed d, refl, omega (arith, h))

  -- On a client with a valid screen the loop never panics, whatever arrives. Over all its rounds
  -- control goes back at most once for each message that gave it, and once less if the client still
  -- has it: the `SwitchToServer` messages sent, and one more if the client is active, are no more
  -- than those before the rounds and the `SwitchToClient` messages that came.
  pub client_rounds-held :
      (events : List (ClientEvent j)) (c : Client j)
      → IsScreen c.state.config.screen_width c.state.config.screen_height
      → (r : Round j) × (client_rounds j events c ≡ done r)
        × (held (client_of j r) ≤ held c + entries events)
  unfolding client_rounds
  client_rounds-held [] c h = (running c, refl, omega arith)
  client_rounds-held (event ∷ more) c h =
      let (r, e, hands) = handle_event-Hands j event c h in
      let (q, f, bound) =
        next_round-held more r (held c + entries_of event) (handle_event-held event c r e) λ d same.
          client_rounds-held more d (
            subst⁻¹ (λ (k : ClientConfig). IsScreen k.screen_width k.screen_height)
              (ap (λ u. (client_of j u).state.config) (sym same)
                ∙ config_kept c (client_of j r) hands)
              h) in
      (
        q,
        ap (λ o. and_then o (next_round j (λ d. client_rounds j more d))) e ∙ f,
        omega (arith, bound),
      )
