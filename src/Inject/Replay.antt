-- ===== src/Inject/Replay.antt =====
-- src/input_capture.rs and src/input_inject.rs, end to end.
use bluecross.Base.{
  ℕ, zero, suc, ◌+◌, ◌≡◌, ap, ◌∙◌, Bool, true, false, some, List, [], ◌∷◌, ℤ, pos, arith, ◌==◌,
  ◌&&◌, ◌||◌, not, ltb, leb, if◌then◌else◌,
}
use bluecross.Capture.{
  CaptureEvent, InputEvent, EventType, synchronization, relative, other, mouse_move, mouse_button,
  mouse_scroll, is_mouse_button, capture_event, capture_as, key_event, relative_event,
}
use bluecross.Inject.{
  Device, keyboard, mouse, Emission, InputInjector, inject_key, inject_mouse_button,
  inject_mouse_move, inject_mouse_scroll, keyboard_keys, syn_event,
}

-- What the virtual devices emit for one captured event.
abbrev pub replay : InputInjector → CaptureEvent → List Emission
replay i (CaptureEvent.key code value) = inject_key i code value
replay i (mouse_move dx dy) = inject_mouse_move i dx dy
replay i (mouse_button code value) = inject_mouse_button i code value
replay i (mouse_scroll dx dy) = inject_mouse_scroll i dx dy

abbrev pub device_of : CaptureEvent → Device
device_of (CaptureEvent.key code value) = keyboard
device_of _ = mouse

-- A move or a scroll by nothing is not emitted.
abbrev pub IsMotionless : InputEvent → Type 0
IsMotionless e = (e.event_type ≡ relative) × (e.value ≡ pos 0)

capture_as-replay :
    (i : InputInjector) (t : EventType) (code : ℕ) (value : ℤ) (c : CaptureEvent)
    → i.has_keyboard ≡ true
    → i.has_mouse ≡ true
    → ((t ≡ relative) × (value ≡ pos 0) → ⊥)
    → capture_as t code value ≡ some c
    → replay i c
      ≡ record {
        device = device_of c;
        events = record { event_type = t; code = code; value = value } ∷ syn_event ∷ [];
      }
        ∷ []
unfolding capture_as key_event relative_event inject_key inject_mouse_button inject_mouse_move
    inject_mouse_scroll
capture_as-replay i EventType.key code value c k m n h = ground arith
capture_as-replay i relative code value c k m n h = ground arith
capture_as-replay i synchronization code value c k m n h = cc
capture_as-replay i other code value c k m n h = cc

-- An event that is captured, other than a relative one of value 0, is emitted again with the same
-- type, code and value and a synchronization behind it, on the virtual keyboard if it is a key and
-- on the virtual mouse otherwise, when both virtual devices are there.
pub capture_event-replay :
    (i : InputInjector) (e : InputEvent) (c : CaptureEvent)
    → i.has_keyboard ≡ true
    → i.has_mouse ≡ true
    → (IsMotionless e → ⊥)
    → capture_event e ≡ some c
    → replay i c ≡ record { device = device_of c; events = e ∷ syn_event ∷ [] } ∷ []
unfolding capture_event
capture_event-replay i e c k m n h = capture_as-replay i e.event_type e.code e.value c k m n h

-- Whether a code is among the keys of the virtual keyboard.
abbrev pub has_code : ℕ → List ℕ → Bool
has_code code [] = false
has_code code (c ∷ cs) = c == code || has_code code cs

keyboard_keys-step :
    (button excluded : Bool) (first count code : ℕ) (cs : List ℕ)
    → (first ≡ code → button ≡ excluded)
    → has_code code cs ≡ (leb (first + 1) code && ltb code (first + 1 + count) && not excluded)
    → has_code code (if button then cs else first ∷ cs)
      ≡ (leb first code && ltb code (first + suc count) && not excluded)
keyboard_keys-step button excluded first count code cs e h = ground arith

keyboard_keys-range :
    (count first code : ℕ)
    → has_code code (keyboard_keys count first)
      ≡ (leb first code && ltb code (first + count) && not (is_mouse_button code))
unfolding keyboard_keys
keyboard_keys-range zero first code = nothing (is_mouse_button code)
  where
    nothing : (b : Bool) → false ≡ (leb first code && ltb code (first + 0) && not b)
    nothing b = ground arith
keyboard_keys-range (suc count) first code =
    keyboard_keys-step (is_mouse_button first) (is_mouse_button code) first count code
      (keyboard_keys count (first + 1)) (λ e. ap is_mouse_button e)
      (keyboard_keys-range count (first + 1) code)

-- The virtual keyboard offers exactly the codes below 0x2ff that are not mouse buttons.
pub keyboard_keys_lem :
    (code : ℕ)
    → has_code code (keyboard_keys 0x2ff 0) ≡ (ltb code 0x2ff && not (is_mouse_button code))
keyboard_keys_lem code = keyboard_keys-range 0x2ff 0 code ∙ from_zero (is_mouse_button code)
  where
    from_zero :
        (b : Bool) → (leb 0 code && ltb code (0 + 0x2ff) && not b) ≡ (ltb code 0x2ff && not b)
    from_zero b = ground arith
