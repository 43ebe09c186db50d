-- ===== src/Client/Motion.antt =====
-- src/client.rs: a batch of motion.
use bluecross.Base.{ℕ, ◌≡◌, ◌∙◌, sym, ap, ap₂, true, List, [], ◌∷◌, ℤ, pos, ◌+ℤ◌, +ℤ_assoc, +ℤ_zero}
use bluecross.Base.Words.{InI32, as_i32, add_i32}
use bluecross.Base.Wrap.{as_i32_add}
use bluecross.Json.{Json, JsonLaws}
use bluecross.Protocol.{Message}
use bluecross.Capture.{mouse_move}
use bluecross.Client.Apply.{Client, apply_message}
use bluecross.Client.Forwarded.{message_for, apply_message-message_for}
use bluecross.Client.Session.{drain_queue}

-- A captured motion, at the time at which its message is applied.
pub record Motion : Type 0 where
  pub at : ℕ
  pub x : ℤ
  pub y : ℤ
  pub dx : ℤ
  pub dy : ℤ
  pub dx_i32 : InI32 dx
  pub dy_i32 : InI32 dy

abbrev pub sum_dx : List Motion → ℤ
sum_dx [] = pos 0
sum_dx (m ∷ ms) = m.dx +ℤ sum_dx ms

abbrev pub sum_dy : List Motion → ℤ
sum_dy [] = pos 0
sum_dy (m ∷ ms) = m.dy +ℤ sum_dy ms

module _ {j : Json} (l : JsonLaws j) where
  abbrev pub motion_messages : List Motion → List (ℕ × Message j.Value)
  motion_messages [] = []
  motion_messages (m ∷ ms) =
      (m.at, message_for j m.x m.y (mouse_move m.dx m.dy)) ∷ motion_messages ms

  drain_queue-cons :
      (now : ℕ) (msg : Message j.Value) (more : List (ℕ × Message j.Value)) (total : ℤ × ℤ)
      (c : Client j) (d : ℤ × ℤ)
      → apply_message j now msg c ≡ (d, c)
      → drain_queue j ((now, msg) ∷ more) total c
        ≡ drain_queue j more (add_i32 total.0 d.0, add_i32 total.1 d.1) c
  unfolding drain_queue
  drain_queue-cons now msg more total c d e =
      ap
        (λ (r : (ℤ × ℤ) × Client j).
          drain_queue j more (add_i32 total.0 r.0.0, add_i32 total.1 r.0.1) r.1)
        e

  -- The motion messages that wait in the queue of an active client are applied as one: their sum,
  -- as an `i32`, is added to the batch, and nothing else changes.
  pub drain_queue-motion_messages :
      (ms : List Motion) (a b : ℤ) (c : Client j)
      → c.state.active ≡ true
      → drain_queue j (motion_messages ms) (as_i32 a, as_i32 b) c
        ≡ ((as_i32 (a +ℤ sum_dx ms), as_i32 (b +ℤ sum_dy ms)), c)
  drain_queue-motion_messages [] a b c h =
      unfold drain_queue in
      ap₂ (λ (x y : ℤ). ((as_i32 x, as_i32 y), c)) (sym (+ℤ_zero a)) (sym (+ℤ_zero b))
  drain_queue-motion_messages (m ∷ ms) a b c h =
      let msg = message_for j m.x m.y (mouse_move m.dx m.dy) in
      let added : (z d : ℤ) → add_i32 (as_i32 z) d ≡ as_i32 (z +ℤ d) =
        λ z d. (unfold add_i32 in as_i32_add z d) in
      drain_queue-cons m.at msg (motion_messages ms) (as_i32 a, as_i32 b) c (m.dx, m.dy)
        (apply_message-message_for l m.at m.x m.y (mouse_move m.dx m.dy) c (m.dx_i32, m.dy_i32) h)
      ∙ ap₂ (λ (x y : ℤ). drain_queue j (motion_messages ms) (x, y) c) (added a m.dx) (added b m.dy)
      ∙ drain_queue-motion_messages ms (a +ℤ m.dx) (b +ℤ m.dy) c h
      ∙ ap₂ (λ (x y : ℤ). ((as_i32 x, as_i32 y), c)) (+ℤ_assoc a m.dx (sum_dx ms))
          (+ℤ_assoc b m.dy (sum_dy ms))
