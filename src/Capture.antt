-- ===== src/Capture.antt =====
-- src/input_capture.rs: what an input event becomes, and the grab calls. The crate `evdev` and the
-- kernel are outside: an event is its type, code and value, and `ioctl` is a value.
pub mod Devices
use bluecross.Base.{
  ℕ, Bool, Option, none, some, List, [], ◌∷◌, map, ℤ, pos, ◌==◌, ◌||◌, if◌then◌else◌,
}

pub data CaptureEvent : Type 0 where
  key : ℕ → ℤ → CaptureEvent
  mouse_move : ℤ → ℤ → CaptureEvent
  mouse_button : ℕ → ℤ → CaptureEvent
  mouse_scroll : ℤ → ℤ → CaptureEvent

pub data EventType : Type 0 where
  synchronization key relative other : EventType

pub record InputEvent : Type 0 where
  pub event_type : EventType
  pub code : ℕ
  pub value : ℤ

-- The codes of `evdev::Key` and `evdev::RelativeAxisType`.
abbrev pub btn_left : ℕ
btn_left = 0x110

abbrev pub btn_right : ℕ
btn_right = 0x111

abbrev pub btn_middle : ℕ
btn_middle = 0x112

abbrev pub btn_side : ℕ
btn_side = 0x113

abbrev pub btn_extra : ℕ
btn_extra = 0x114

abbrev pub rel_x : ℕ
rel_x = 0

abbrev pub rel_y : ℕ
rel_y = 1

abbrev pub rel_hwheel : ℕ
rel_hwheel = 6

abbrev pub rel_wheel : ℕ
rel_wheel = 8

abbrev pub is_mouse_button : ℕ → Bool
is_mouse_button code =
    code == btn_left
    || code == btn_right
    || code == btn_middle
    || code == btn_side
    || code == btn_extra

unfoldable pub key_event : ℕ → ℤ → CaptureEvent
key_event code value = if is_mouse_button code then mouse_button code value else key code value

unfoldable pub relative_event : ℕ → ℤ → Option CaptureEvent
relative_event axis value =
    if axis == rel_x
    then some (mouse_move value (pos 0))
    else if axis == rel_y
    then some (mouse_move (pos 0) value)
    else if axis == rel_wheel
    then some (mouse_scroll (pos 0) value)
    else if axis == rel_hwheel
    then some (mouse_scroll value (pos 0))
    else none

-- One round of `read_device_events`: `none` is its `continue`.
unfoldable pub capture_as : EventType → ℕ → ℤ → Option CaptureEvent
unfolding key_event relative_event
capture_as EventType.key code value = some (key_event code value)
capture_as relative code value = relative_event code value
capture_as _ code value = none

unfoldable pub capture_event : InputEvent → Option CaptureEvent
unfolding capture_as
capture_event event = capture_as event.event_type event.code event.value

-- The loop of `read_device_events`, over the events that a device delivers while the channel is
-- open.
unfoldable pub read_device_events : List InputEvent → List CaptureEvent
read_device_events [] = []
read_device_events (event ∷ more) = elim (capture_event event) [
  | none ↦ read_device_events more
  | some captured ↦ captured ∷ read_device_events more
]

-- `ioctl(fd, EVIOCGRAB, arg)`
pub record Ioctl : Type 0 where
  pub fd : ℕ
  pub arg : ℕ

unfoldable pub grab_devices : List ℕ → List Ioctl
grab_devices fds = map (λ fd. record { fd = fd; arg = 1 }) fds

unfoldable pub ungrab_devices : List ℕ → List Ioctl
ungrab_devices fds = map (λ fd. record { fd = fd; arg = 0 }) fds
