-- ===== src/Server/Motion/Sent.antt =====
-- src/server.rs: what `handle_input` sends of the motion that is captured.
use mathlib.Core.List.{append_assoc, append-nil, map-append}
use bluecross.Base.{
  ℕ, ◌-◌, ◌≡◌, refl, ◌∙◌, sym, ap, subst, subst⁻¹, true, false, some, List, [], ◌∷◌, ◌++◌, map,
  String, ℤ, pos, ◌+ℤ◌, +ℤ_zero, arith, Outcome, done, and_then, and_then-eq-done, leb, Bool-cases,
  inl, inr,
}
use bluecross.Base.Words.{as_i32, add_i32, sub_i32, clamp}
use bluecross.Base.Wrap.{as_i32_add}
use bluecross.Base.Maps.{lookup}
use bluecross.Json.{Json}
use bluecross.Protocol.{Message}
use bluecross.Protocol.Builders
use bluecross.Capture.{mouse_move}
use bluecross.Server.Delivery.{delivered, HasRoom, HasRoom-is_alive, taken}
use bluecross.Server.State.{ClientInfo, Call, try_send, Server, Queues, send_to}
use bluecross.Server.Input.{
  after_motion, move_active, moved, move_mouse, handle_input, add_pending, pending_motion,
  flush_interval,
}
use bluecross.Server.Invariant.{Inv}
use bluecross.Server.Invariant.Moves.{handle_input-Keeps}
use bluecross.Server.Motion.{
  Motion, sum_dx, sum_dy, Wraps, +ℤ_zero_left, sum_dx-append, sum_dy-append, Wraps-step,
}

module _ {j : Json} (queues : Queues j) where
  -- The captured moves, each at its time.
  unfoldable pub handle_moves : List (ℕ × ℤ × ℤ) → Server j → Outcome (Server j)
  handle_moves [] s = done s
  handle_moves ((now, dx, dy) ∷ more) s =
      and_then (handle_input j queues now (mouse_move dx dy) s) (λ t. handle_moves more t)

  abbrev pub moves_dx : List (ℕ × ℤ × ℤ) → ℤ
  moves_dx [] = pos 0
  moves_dx ((now, dx, dy) ∷ more) = dx +ℤ moves_dx more

  abbrev pub moves_dy : List (ℕ × ℤ × ℤ) → ℤ
  moves_dy [] = pos 0
  moves_dy ((now, dx, dy) ∷ more) = dy +ℤ moves_dy more

  abbrev pub motion_call : ℕ → Motion → Call j
  motion_call tx m = try_send tx (Builders.mouse_move j m.x m.y m.dx m.dy)

  -- The client stays active under its queue.
  pub record IsServed (name : String) (info : ClientInfo) (s : Server j) : Type 0 where
    pub active : s.active_client ≡ some name
    pub known : lookup name s.clients ≡ some info

  pub record Conserves (info : ClientInfo) (dx dy : ℤ) (s t : Server j) : Type 0 where
    pub motions : List Motion
    pub calls : t.calls ≡ s.calls ++ map (motion_call info.tx) motions
    pub sum_x : Wraps (sum_dx motions +ℤ t.pending_dx) (s.pending_dx +ℤ dx)
    pub sum_y : Wraps (sum_dy motions +ℤ t.pending_dy) (s.pending_dy +ℤ dy)

  -- The motion's message, with its queue.
  abbrev pub motion_to : ℕ → Motion → ℕ × Message j.Value
  motion_to tx m = (tx, Builders.mouse_move j m.x m.y m.dx m.dy)

  delivered-motions :
      (tx : ℕ) (before : List (Call j)) (motions : List Motion)
      → HasRoom queues tx
      → delivered queues before (map (motion_call tx) motions) ≡ map (motion_to tx) motions
  delivered-motions tx before [] h = refl
  delivered-motions tx before (m ∷ more) h =
      let msg = Builders.mouse_move j m.x m.y m.dx m.dy in
      taken (queues before tx msg) (tx, msg) _ (map (motion_to tx) more) (h before msg)
        (delivered-motions tx (before ++ motion_call tx m ∷ []) more h)

  Wraps-added : (p d : ℤ) → Wraps (pos 0 +ℤ add_i32 p d) (p +ℤ d)
  unfolding add_i32
  Wraps-added p d =
      ap as_i32 (+ℤ_zero_left (as_i32 (p +ℤ d)) ∙ sym (+ℤ_zero (as_i32 (p +ℤ d))))
      ∙ as_i32_add (p +ℤ d) (pos 0)
      ∙ ap as_i32 (+ℤ_zero (p +ℤ d))

  Wraps-sent : (p d : ℤ) → Wraps (add_i32 p d +ℤ pos 0 +ℤ pos 0) (p +ℤ d)
  Wraps-sent p d =
      ap as_i32 (
        ap (λ (z : ℤ). z +ℤ pos 0) (+ℤ_zero (add_i32 p d))
        ∙ +ℤ_zero (add_i32 p d)
        ∙ sym (+ℤ_zero_left (add_i32 p d)))
      ∙ Wraps-added p d

  -- What `send_to` does for a registered client whose queue has room.
  pub send_to-known :
      (name : String) (msg : Message j.Value) (info : ClientInfo) (s : Server j)
      → HasRoom queues info.tx
      → lookup name s.clients ≡ some info
      → send_to j queues name msg s
        ≡ (true, record s { calls = s.calls ++ try_send info.tx msg ∷ [] })
  unfolding send_to
  send_to-known name msg info s g k =
      ground (arith, k, HasRoom-is_alive queues info.tx g s.calls msg)

  -- `move_active` keeps the motion, or sends it with what was pending.
  move_active-kept :
      (now : ℕ) (dx dy : ℤ) (name : String) (s : Server j)
      → leb flush_interval (now - s.last_flush) ≡ false
      → move_active j queues now dx dy name s ≡ add_pending j dx dy s
  unfolding move_active
  move_active-kept now dx dy name s e = rw e

  move_active-sent :
      (now : ℕ) (dx dy : ℤ) (name : String) (info : ClientInfo) (s : Server j)
      → HasRoom queues info.tx
      → lookup name s.clients ≡ some info
      → leb flush_interval (now - s.last_flush) ≡ true
      → let m : Motion = record {
        x = s.mouse_x;
        y = s.mouse_y;
        dx = add_i32 s.pending_dx dx;
        dy = add_i32 s.pending_dy dy;
      } in
        move_active j queues now dx dy name s ≡ record s {
          pending_dx = pos 0;
          pending_dy = pos 0;
          last_flush = now;
          calls = s.calls ++ motion_call info.tx m ∷ [];
        }
  unfolding move_active after_motion
  move_active-sent now dx dy name info s g k e = rw e (
      ap (λ r. after_motion j name now r)
        (send_to-known name (pending_motion j (add_pending j dx dy s)) info (add_pending j dx dy s)
          g k))

  move_active-Conserves :
      (now : ℕ) (dx dy : ℤ) (name : String) (info : ClientInfo) (s : Server j)
      → HasRoom queues info.tx
      → IsServed name info s
      → let t = move_active j queues now dx dy name s in
        Conserves info dx dy s t × IsServed name info t
  move_active-Conserves now dx dy name info s g h =
      elim (Bool-cases (leb flush_interval (now - s.last_flush))) [
        | inl e ↦
            subst⁻¹ (λ t. Conserves info dx dy s t × IsServed name info t)
              (move_active-sent now dx dy name info s g h.known e)
              (
                record {
                  motions =
                      record {
                        x = s.mouse_x;
                        y = s.mouse_y;
                        dx = add_i32 s.pending_dx dx;
                        dy = add_i32 s.pending_dy dy;
                      }
                      ∷ [];
                  calls = refl;
                  sum_x = Wraps-sent s.pending_dx dx;
                  sum_y = Wraps-sent s.pending_dy dy;
                },
                record { active = h.active; known = h.known },
              )
        | inr e ↦
            subst⁻¹ (λ t. Conserves info dx dy s t × IsServed name info t)
              (move_active-kept now dx dy name s e)
              (
                record {
                  motions = [];
                  calls = sym (append-nil s.calls);
                  sum_x = Wraps-added s.pending_dx dx;
                  sum_y = Wraps-added s.pending_dy dy;
                },
                record { active = h.active; known = h.known },
              )
      ]

  handle_input-Conserves :
      (now : ℕ) (dx dy : ℤ) (name : String) (info : ClientInfo) (s t : Server j)
      → HasRoom queues info.tx
      → IsServed name info s
      → handle_input j queues now (mouse_move dx dy) s ≡ done t
      → Conserves info dx dy s t × IsServed name info t
  unfolding handle_input move_mouse moved
  handle_input-Conserves now dx dy name info s t g h e =
      let (x, d₁, e₁) =
        and_then-eq-done
          (clamp (pos 0) (sub_i32 s.config.screen_width (pos 1)) (add_i32 s.mouse_x dx)) _ e in
      let (y, d₂, e₂) =
        and_then-eq-done
          (clamp (pos 0) (sub_i32 s.config.screen_height (pos 1)) (add_i32 s.mouse_y dy)) _ e₁ in
      let u = record s { mouse_x = x; mouse_y = y } in
      let chosen : moved j queues now dx dy (some name) u ≡ done t =
        subst (λ active. moved j queues now dx dy active u ≡ done t) h.active e₂ in
      let same : move_active j queues now dx dy name u ≡ t = cc in
      let (c, k) =
        move_active-Conserves now dx dy name info u g
          (record { active = h.active; known = h.known }) in
      let c' : Conserves info dx dy s (move_active j queues now dx dy name u) = record {
        motions = c.motions;
        calls = c.calls;
        sum_x = c.sum_x;
        sum_y = c.sum_y;
      } in
      subst (λ t. Conserves info dx dy s t × IsServed name info t) same (c', k)

  Conserves-trans :
      (info : ClientInfo) (dx dy ex ey : ℤ) (s t u : Server j)
      → Conserves info dx dy s t
      → Conserves info ex ey t u
      → Conserves info (dx +ℤ ex) (dy +ℤ ey) s u
  Conserves-trans info dx dy ex ey s t u h k = record {
    motions = h.motions ++ k.motions;
    calls =
        k.calls
        ∙ ap (λ (c : List (Call j)). c ++ map (motion_call info.tx) k.motions) h.calls
        ∙ append_assoc s.calls (map (motion_call info.tx) h.motions)
            (map (motion_call info.tx) k.motions)
        ∙ ap (λ (c : List (Call j)). s.calls ++ c)
            (sym (map-append (motion_call info.tx) h.motions k.motions));
    sum_x =
        ap (λ (z : ℤ). as_i32 (z +ℤ u.pending_dx)) (sum_dx-append h.motions k.motions)
        ∙ Wraps-step s.pending_dx dx (sum_dx h.motions) t.pending_dx (sum_dx k.motions) u.pending_dx
            ex h.sum_x k.sum_x;
    sum_y =
        ap (λ (z : ℤ). as_i32 (z +ℤ u.pending_dy)) (sum_dy-append h.motions k.motions)
        ∙ Wraps-step s.pending_dy dy (sum_dy h.motions) t.pending_dy (sum_dy k.motions) u.pending_dy
            ey h.sum_y k.sum_y;
  }

  moves-Conserves :
      (moves : List (ℕ × ℤ × ℤ)) (name : String) (info : ClientInfo) (s : Server j)
      → HasRoom queues info.tx
      → Inv s
      → IsServed name info s
      → (t : Server j) × (handle_moves moves s ≡ done t)
        × Conserves info (moves_dx moves) (moves_dy moves) s t
        × IsServed name info t
  unfolding handle_moves
  moves-Conserves [] name info s g i h = (
    s,
    refl,
    record {
      motions = [];
      calls = sym (append-nil s.calls);
      sum_x = ap as_i32 (+ℤ_zero_left s.pending_dx ∙ sym (+ℤ_zero s.pending_dx));
      sum_y = ap as_i32 (+ℤ_zero_left s.pending_dy ∙ sym (+ℤ_zero s.pending_dy));
    },
    h,
  )
  moves-Conserves ((now, dx, dy) ∷ more) name info s g i h =
      let (u, d, i') = handle_input-Keeps queues now (mouse_move dx dy) s i in
      let (c, k) = handle_input-Conserves now dx dy name info s u g h d in
      let (t, e, c', k') = moves-Conserves more name info u g i' k in
      (t, rw d e, Conserves-trans info dx dy (moves_dx more) (moves_dy more) s u t c c', k')

  -- While a client is active, and its queue is open and never full, every captured motion gets into
  -- the queue or is still pending, and nothing else does: from a state that satisfies the invariant
  -- the moves do not panic, and the calls that they cause are motion messages to the client's queue,
  -- all of which the queue takes. Their sum with the motion pending afterwards is the motion pending
  -- before and the captured moves, as 32-bit sums in each axis. The client stays active.
  pub handle_moves-Conserves :
      (moves : List (ℕ × ℤ × ℤ)) (name : String) (info : ClientInfo) (s : Server j)
      → HasRoom queues info.tx
      → Inv s
      → IsServed name info s
      → (t : Server j) × (handle_moves moves s ≡ done t)
        × (c : Conserves info (moves_dx moves) (moves_dy moves) s t) × (delivered queues s.calls
              (map (motion_call info.tx) c.motions)
            ≡ map (motion_to info.tx) c.motions)
        × IsServed name info t
  handle_moves-Conserves moves name info s g i h =
      let (t, e, c, k) = moves-Conserves moves name info s g i h in
      (t, e, c, delivered-motions info.tx s.calls c.motions g, k)
