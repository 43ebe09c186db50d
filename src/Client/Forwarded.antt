-- ===== src/Client/Forwarded.antt =====
-- src/client.rs on what src/server.rs sends: what the client makes of captured input.
use bluecross.Base.{
  ℕ, ◌^◌, ◌<◌, ◌≡◌, refl, ap, ◌∙◌, true, some, List, [], ◌∷◌, String, ℤ, pos, arith,
}
use bluecross.Base.Words.{InI32, as_i32, as_u16, as_i32-fits, as_u16-fits}
use bluecross.Base.Maps.{lookup}
use bluecross.Json.{Json, JsonLaws, InI64, HasDistinctKeys}
use bluecross.Protocol.{Message}
use bluecross.Protocol.Builders
use bluecross.Capture.{CaptureEvent, key, mouse_move, mouse_button, mouse_scroll}
use bluecross.Inject.{inject_key, inject_mouse_button, inject_mouse_scroll}
use bluecross.Client.Apply.{Client, i64_field, apply_message, then_emit}

-- A key code of 16 bits, and values of 32.
abbrev pub IsTyped : CaptureEvent → Type 0
IsTyped (key code value) = (code < 2 ^ 16) × InI32 value
IsTyped (mouse_button code value) = (code < 2 ^ 16) × InI32 value
IsTyped (mouse_scroll dx dy) = InI32 dx × InI32 dy
IsTyped (mouse_move dx dy) = InI32 dx × InI32 dy

-- The motion that a captured event adds to a batch.
abbrev pub motion_of : CaptureEvent → ℤ × ℤ
motion_of (mouse_move dx dy) = (dx, dy)
motion_of _ = (pos 0, pos 0)

pub i32-InI64 : (z : ℤ) → InI32 z → InI64 z
i32-InI64 z h = record { low = omega arith; high = omega arith }

u16-InI64 : (n : ℕ) → n < 2 ^ 16 → InI64 (pos n)
u16-InI64 n h = record { low = omega arith; high = omega arith }

module _ (j : Json) where
  -- A client that gives a captured event to its virtual devices. Motion waits in the batch.
  abbrev pub inject : CaptureEvent → Client j → Client j
  inject (key code value) c = then_emit j (inject_key c.injector code value) c
  inject (mouse_button code value) c = then_emit j (inject_mouse_button c.injector code value) c
  inject (mouse_scroll dx dy) c = then_emit j (inject_mouse_scroll c.injector dx dy) c
  inject (mouse_move dx dy) c = c

  -- The message that the server sends for an event, at the cursor `x`, `y`.
  abbrev pub message_for : ℤ → ℤ → CaptureEvent → Message j.Value
  message_for x y (key code value) = Builders.key_event j code value
  message_for x y (mouse_button code value) = Builders.mouse_button j code value
  message_for x y (mouse_scroll dx dy) = Builders.mouse_scroll j dx dy
  message_for x y (mouse_move dx dy) = Builders.mouse_move j x y dx dy

i64_field-reads :
    (j : Json) (payload : j.Value) (k : String) (z default : ℤ) (v : j.Value)
    → j.get payload k ≡ some v
    → j.as_i64 v ≡ some z
    → i64_field j payload k default ≡ z
unfolding i64_field
i64_field-reads j payload k z default v e f = ground arith

module _ {j : Json} (l : JsonLaws j) where
  pub i64_field-object :
      (fields : List (String × j.Value)) (k : String) (z default : ℤ)
      → HasDistinctKeys fields
      → lookup k fields ≡ some (j.number z)
      → InI64 z
      → i64_field j (j.object fields) k default ≡ z
  i64_field-object fields k z default d e h =
      i64_field-reads j (j.object fields) k z default (j.number z) (l.get-object fields k d ∙ e)
        (l.as_i64-number z h)

  i32_field-object :
      (fields : List (String × j.Value)) (k : String) (z : ℤ)
      → HasDistinctKeys fields
      → lookup k fields ≡ some (j.number z)
      → InI32 z
      → as_i32 (i64_field j (j.object fields) k (pos 0)) ≡ z
  i32_field-object fields k z d e h =
      ap as_i32 (i64_field-object fields k z (pos 0) d e (i32-InI64 z h)) ∙ as_i32-fits z h

  u16_field-object :
      (fields : List (String × j.Value)) (k : String) (n : ℕ)
      → HasDistinctKeys fields
      → lookup k fields ≡ some (j.number (pos n))
      → n < 2 ^ 16
      → as_u16 (i64_field j (j.object fields) k (pos 0)) ≡ n
  u16_field-object fields k n d e h =
      ap as_u16 (i64_field-object fields k (pos n) (pos 0) d e (u16-InI64 n h)) ∙ as_u16-fits n h

  -- An active client injects exactly the captured key, button or scroll event, and adds exactly
  -- the captured motion to its batch; nothing else of it changes. Codes are 16 bits wide and
  -- values 32, and the JSON crate keeps its laws.
  pub apply_message-message_for :
      (now : ℕ) (x y : ℤ) (event : CaptureEvent) (c : Client j)
      → IsTyped event
      → c.state.active ≡ true
      → apply_message j now (message_for j x y event) c ≡ (motion_of event, inject j event c)
  unfolding apply_message Builders.key_event Builders.mouse_button Builders.mouse_scroll
      Builders.mouse_move lookup
  apply_message-message_for now x y (key code value) c (u, v) a =
      let fields : List (String × j.Value) =
        ("code", j.number (pos code)) ∷ ("value", j.number value) ∷ [] in
      rw (
        a,
        u16_field-object fields "code" code (refl, (refl, tt)) refl u,
        i32_field-object fields "value" value (refl, (refl, tt)) refl v,
      )
  apply_message-message_for now x y (mouse_button code value) c (u, v) a =
      let fields : List (String × j.Value) =
        ("button", j.number (pos code)) ∷ ("value", j.number value) ∷ [] in
      rw (
        a,
        u16_field-object fields "button" code (refl, (refl, tt)) refl u,
        i32_field-object fields "value" value (refl, (refl, tt)) refl v,
      )
  apply_message-message_for now x y (mouse_scroll dx dy) c (u, v) a =
      let fields : List (String × j.Value) = ("dx", j.number dx) ∷ ("dy", j.number dy) ∷ [] in
      rw (
        a,
        i32_field-object fields "dx" dx (refl, (refl, tt)) refl u,
        i32_field-object fields "dy" dy (refl, (refl, tt)) refl v,
      )
  apply_message-message_for now x y (mouse_move dx dy) c (u, v) a =
      let fields : List (String × j.Value) =
        ("x", j.number x) ∷ ("y", j.number y) ∷ ("dx", j.number dx) ∷ ("dy", j.number dy) ∷ [] in
      let d : HasDistinctKeys fields = (refl, (refl, (refl, (refl, tt)))) in
      rw (a, i32_field-object fields "dx" dx d refl u, i32_field-object fields "dy" dy d refl v)
