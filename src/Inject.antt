-- ===== src/Inject.antt =====
-- src/input_inject.rs: the virtual devices and the events that are emitted on them. `evdev` is
-- outside: a device is there or not, and an emission is a value; its result is ignored.
pub mod Replay
use bluecross.Base.{
  ℕ, zero, suc, ◌+◌, Bool, true, false, Option, none, some, List, [], ◌∷◌, ◌++◌, ℤ, pos, eqb_ℤ, not,
  Result, ok, err, if◌then◌else◌,
}
use bluecross.Capture.{
  InputEvent, EventType, synchronization, key, relative, is_mouse_button, btn_left, btn_right,
  btn_middle, btn_side, btn_extra, rel_x, rel_y, rel_wheel, rel_hwheel,
}

pub data Device : Type 0 where
  keyboard mouse : Device

-- A batch of events on one device.
pub record Emission : Type 0 where
  pub device : Device
  pub events : List InputEvent

pub record InputInjector : Type 0 where
  pub has_keyboard : Bool
  pub has_mouse : Bool

unfoldable pub new : InputInjector
new = record { has_keyboard = false; has_mouse = false }

-- The loop over the codes of `setup`: `count` codes from `code` on.
unfoldable pub keyboard_keys : ℕ → ℕ → List ℕ
keyboard_keys zero code = []
keyboard_keys (suc count) code =
    let rest = keyboard_keys count (code + 1) in if is_mouse_button code then rest else code ∷ rest

abbrev pub mouse_buttons : List ℕ
mouse_buttons = btn_left ∷ btn_right ∷ btn_middle ∷ btn_side ∷ btn_extra ∷ []

abbrev pub mouse_axes : List ℕ
mouse_axes = rel_x ∷ rel_y ∷ rel_wheel ∷ rel_hwheel ∷ []

-- Building a device fails or succeeds. `?` leaves with the keyboard in place when the mouse fails.
unfoldable pub setup :
    (List ℕ → Bool) → (List ℕ → List ℕ → Bool) → InputInjector → Bool × InputInjector
unfolding keyboard_keys
setup build_keyboard build_mouse i =
    if build_keyboard (keyboard_keys 0x2ff 0)
    then (if build_mouse mouse_buttons mouse_axes
        then (true, record { has_keyboard = true; has_mouse = true })
        else (false, record i { has_keyboard = true }))
    else (false, i)

abbrev pub syn_event : InputEvent
syn_event = record { event_type = synchronization; code = 0; value = pos 0 }

abbrev pub key_press : ℕ → ℤ → InputEvent
key_press code value = record { event_type = EventType.key; code = code; value = value }

abbrev pub rel_event : ℕ → ℤ → InputEvent
rel_event axis value = record { event_type = relative; code = axis; value = value }

-- An axis that does not move has no event.
abbrev pub axis_event : ℕ → ℤ → List InputEvent
axis_event axis value = if eqb_ℤ value (pos 0) then [] else rel_event axis value ∷ []

-- A batch that would be empty is not emitted; every other ends in a synchronization.
abbrev pub with_syn : List InputEvent → List Emission
with_syn [] = []
with_syn (e ∷ es) = record { device = mouse; events = (e ∷ es) ++ syn_event ∷ [] } ∷ []

unfoldable pub inject_key : InputInjector → ℕ → ℤ → List Emission
inject_key i code value =
    if i.has_keyboard
    then record { device = keyboard; events = key_press code value ∷ syn_event ∷ [] } ∷ []
    else []

unfoldable pub inject_mouse_move : InputInjector → ℤ → ℤ → List Emission
inject_mouse_move i dx dy =
    if i.has_mouse then with_syn (axis_event rel_x dx ++ axis_event rel_y dy) else []

unfoldable pub inject_mouse_button : InputInjector → ℕ → ℤ → List Emission
inject_mouse_button i button value =
    if i.has_mouse
    then record { device = mouse; events = key_press button value ∷ syn_event ∷ [] } ∷ []
    else []

unfoldable pub inject_mouse_scroll : InputInjector → ℤ → ℤ → List Emission
inject_mouse_scroll i dx dy =
    if i.has_mouse then with_syn (axis_event rel_wheel dy ++ axis_event rel_hwheel dx) else []

unfoldable pub close : InputInjector → InputInjector
close i = record { has_keyboard = false; has_mouse = false }
