-- ===== src/Server/Motion.antt =====
-- src/server.rs: captured motion against sent motion. Motions, their sums, and
-- equality of sums as `i32`s.
pub mod Sent
pub mod Order
use mathlib.Core.List.{append_assoc, append-nil, map-append}
use bluecross.Base.{
  ℕ, ◌-◌, ◌≡◌, refl, ◌∙◌, sym, ap, ap₂, subst, subst⁻¹, ◌≢◌, Bool, true, false, Option, none, some,
  List, [], ◌∷◌, ◌++◌, map, String, ℤ, pos, ◌+ℤ◌, +ℤ_assoc, +ℤ_zero, arith, Outcome, done, panic,
  and_then, and_then-eq-done, if◌then◌else◌, leb, Bool-cases, inl, inr, eqb_ℤ, ◌||◌, not,
}
use bluecross.Base.Words.{as_i32, add_i32, sub_i32, clamp}
use bluecross.Base.Wrap.{as_i32_add}
use bluecross.Base.Maps.{lookup}
use bluecross.Json.{Json}
use bluecross.Protocol.{Message}
use bluecross.Protocol.Builders
use bluecross.Capture.{CaptureEvent, key, mouse_move, mouse_button, mouse_scroll}
use bluecross.Server.State.{
  ClientInfo, SendStatus, sent, full, disconnected, Call, try_send, Server, Queues, send_to,
  is_alive,
}
use bluecross.Server.Input.{
  after_motion, move_active, moved, move_mouse, handle_input, add_pending, pending_motion,
  flush_interval, forward, forward_to_active, after_flush, send_or_deactivate, after_switch,
}

-- A motion: of the mouse, or of a message, where `x` and `y` are the cursor.
pub record Motion : Type 0 where
  pub x : ℤ
  pub y : ℤ
  pub dx : ℤ
  pub dy : ℤ

abbrev pub sum_dx : List Motion → ℤ
sum_dx [] = pos 0
sum_dx (m ∷ ms) = m.dx +ℤ sum_dx ms

abbrev pub sum_dy : List Motion → ℤ
sum_dy [] = pos 0
sum_dy (m ∷ ms) = m.dy +ℤ sum_dy ms

pub +ℤ_zero_left : (a : ℤ) → pos 0 +ℤ a ≡ a
unfolding ◌+ℤ◌
+ℤ_zero_left a = ground arith

pub sum_dx-append : (xs ys : List Motion) → sum_dx (xs ++ ys) ≡ sum_dx xs +ℤ sum_dx ys
sum_dx-append [] ys = sym (+ℤ_zero_left (sum_dx ys))
sum_dx-append (x ∷ xs) ys =
    ap (λ (z : ℤ). x.dx +ℤ z) (sum_dx-append xs ys) ∙ sym (+ℤ_assoc x.dx (sum_dx xs) (sum_dx ys))

pub sum_dy-append : (xs ys : List Motion) → sum_dy (xs ++ ys) ≡ sum_dy xs +ℤ sum_dy ys
sum_dy-append [] ys = sym (+ℤ_zero_left (sum_dy ys))
sum_dy-append (x ∷ xs) ys =
    ap (λ (z : ℤ). x.dy +ℤ z) (sum_dy-append xs ys) ∙ sym (+ℤ_assoc x.dy (sum_dy xs) (sum_dy ys))

-- Equal as 32-bit sums.
abbrev pub Wraps : ℤ → ℤ → Type 0
Wraps a b = as_i32 a ≡ as_i32 b

pub Wraps-add : (a b c : ℤ) → Wraps a b → Wraps (a +ℤ c) (b +ℤ c)
Wraps-add a b c h = sym (as_i32_add a c) ∙ ap (λ (z : ℤ). as_i32 (z +ℤ c)) h ∙ as_i32_add b c

pub +ℤ_swap : (a b c : ℤ) → a +ℤ b +ℤ c ≡ b +ℤ c +ℤ a
unfolding ◌+ℤ◌
+ℤ_swap a b c = ground arith

-- One step with the sums behind it: `s₁` was sent and `u` is pending after the step.
pub Wraps-step :
    (p d s₁ u s₂ q total : ℤ)
    → Wraps (s₁ +ℤ u) (p +ℤ d)
    → Wraps (s₂ +ℤ q) (u +ℤ total)
    → Wraps (s₁ +ℤ s₂ +ℤ q) (p +ℤ (d +ℤ total))
Wraps-step p d s₁ u s₂ q total h k =
    ap as_i32 (+ℤ_swap s₁ s₂ q)
    ∙ Wraps-add (s₂ +ℤ q) (u +ℤ total) s₁ k
    ∙ ap as_i32 (sym (+ℤ_swap s₁ u total))
    ∙ Wraps-add (s₁ +ℤ u) (p +ℤ d) total h
    ∙ ap as_i32 (+ℤ_assoc p d total)
