-- ===== src/Tests/Devices.antt =====
-- src/input_capture.rs and src/input_inject.rs at concrete events.
use bluecross.Base.{◌≡◌, refl, true, some, [], ◌∷◌, pos, negsuc}
use bluecross.Capture.{
  InputEvent, relative, rel_wheel, mouse_scroll, capture_event, capture_as, relative_event,
}
use bluecross.Inject.{InputInjector, syn_event}
use bluecross.Inject.Replay.{replay, device_of, capture_event-replay}

abbrev devices : InputInjector
devices = record { has_keyboard = true; has_mouse = true }

-- A step of the wheel towards the user.
abbrev wheel : InputEvent
wheel = record { event_type = relative; code = rel_wheel; value = negsuc 0 }

wheel-captured : capture_event wheel ≡ some (mouse_scroll (pos 0) (negsuc 0))
unfolding capture_event capture_as relative_event
wheel-captured = refl

capture_event-replay_example :
    replay devices (mouse_scroll (pos 0) (negsuc 0))
    ≡ record {
      device = device_of (mouse_scroll (pos 0) (negsuc 0));
      events = wheel ∷ syn_event ∷ [];
    }
      ∷ []
capture_event-replay_example =
    capture_event-replay devices wheel (mouse_scroll (pos 0) (negsuc 0)) refl refl (λ h. cc)
      wheel-captured
