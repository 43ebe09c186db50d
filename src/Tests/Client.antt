-- ===== src/Tests/Client.antt =====
-- src/client.rs to the right of the server.
use bluecross.Base.{
  ℕ, ◌-◌, ◌≤◌, ◌≡◌, refl, true, false, some, List, [], ◌∷◌, pos, negsuc, arith, ◌+ℤ◌, done,
}
use bluecross.Base.Words.{as_i32}
use bluecross.Server.Invariant.{IsScreen}
use bluecross.Capture.{key, mouse_move}
use bluecross.Clipboard
use bluecross.Config.{right, ClientConfig}
use bluecross.Client.State.{ClientState, Readings, millis, check_exit_edge, push_edge, edge_test}
use bluecross.Client.Apply.{Client, apply_message}
use bluecross.Client.Exit.{Attempt, attempt, after, IsPush, check_exit_edge-IsPush}
use bluecross.Client.Forwarded.{motion_of, inject, message_for, apply_message-message_for}
use bluecross.Client.Motion.{Motion, motion_messages, sum_dx, sum_dy, drain_queue-motion_messages}
use bluecross.Client.Release.{client_of}
use bluecross.Client.Rounds.{Hands, handle_event-Hands}
use bluecross.Client.Screen.{IsOnScreen, apply_motion-IsOnScreen}
use bluecross.Client.Session.{Round, ClientEvent, messages, drain_queue, apply_motion, handle_event}
use bluecross.Tests.Flat.{flat, flat-JsonLaws}

abbrev config : ClientConfig
config = record {
  server_host = "10.0.0.1";
  server_port = 5678;
  screen_width = pos 1366;
  screen_height = pos 768;
  name = "laptop";
  clipboard_sharing = true;
  psk = "correct horse battery";
}

-- A client that became active at the time 0.
abbrev state : ClientState
state = record {
  config = config;
  position = some right;
  server_width = pos 1920;
  server_height = pos 1080;
  active = true;
  mouse_x = pos 100;
  mouse_y = pos 384;
  switch_time = 0;
  edge_push_start = 0;
  edge_pushing = false;
}

-- A push to the left at the left edge, which reads one time throughout.
abbrev push_at : ℕ → Attempt
push_at now = record {
  t = record { at_grace = now; at_start = now; at_elapsed = now };
  x = pos 0;
  y = pos 384;
  dx = negsuc 4;
  dy = pos 0;
}

abbrev first : Attempt
first = push_at 1_000_000_000

abbrev second : Attempt
second = push_at 1_400_000_000

leaves : (attempt second (after (first ∷ []) state)).0 ≡ true
unfolding check_exit_edge push_edge edge_test
leaves = refl

check_exit_edge-IsPush_example :
    (start : ℕ) × IsPush config right 0 start (second ∷ first ∷ [])
    × (millis 300 ≤ second.t.at_elapsed - start)
    × (millis 200 ≤ second.t.at_grace - 0)
check_exit_edge-IsPush_example =
    check_exit_edge-IsPush config right 0 (first ∷ []) second state
      (record { config = refl; position = refl; switch_time = refl }) refl leaves

abbrev client : Client flat
client = record {
  state = state;
  injector = record { has_keyboard = true; has_mouse = true };
  clipboard = Clipboard.new;
  effects = [];
}

apply_message-message_for_example :
    apply_message flat 7 (message_for flat (pos 0) (pos 5) (key 30 (pos 1))) client
    ≡ (motion_of (key 30 (pos 1)), inject flat (key 30 (pos 1)) client)
apply_message-message_for_example =
    apply_message-message_for flat-JsonLaws 7 (pos 0) (pos 5) (key 30 (pos 1)) client
      (omega arith, record { low = omega arith; high = omega arith }) refl

abbrev motions : List Motion
motions =
    record {
      at = 5;
      x = pos 0;
      y = pos 0;
      dx = pos 3;
      dy = negsuc 1;
      dx_i32 = record { low = omega arith; high = omega arith };
      dy_i32 = record { low = omega arith; high = omega arith };
    }
    ∷ record {
      at = 6;
      x = pos 0;
      y = pos 0;
      dx = negsuc 9;
      dy = pos 0;
      dx_i32 = record { low = omega arith; high = omega arith };
      dy_i32 = record { low = omega arith; high = omega arith };
    }
    ∷ []

drain_queue-motion_messages_example :
    drain_queue flat (motion_messages flat-JsonLaws motions) (as_i32 (pos 1), as_i32 (pos 0)) client
    ≡ ((as_i32 (pos 1 +ℤ sum_dx motions), as_i32 (pos 0 +ℤ sum_dy motions)), client)
drain_queue-motion_messages_example =
    drain_queue-motion_messages flat-JsonLaws motions (pos 1) (pos 0) client refl

abbrev readings : Readings
readings = record { at_grace = 1_400_000_000; at_start = 1_400_000_000; at_elapsed = 1_400_000_000 }

abbrev pushing : Client flat
pushing = record client {
  state = record state { edge_pushing = true; edge_push_start = 1_000_000_000 };
}

pushing-IsScreen : IsScreen (pos 1366) (pos 768)
pushing-IsScreen = record {
  wide = omega arith;
  high = omega arith;
  width_i32 = record { low = omega arith; high = omega arith };
  height_i32 = record { low = omega arith; high = omega arith };
}

apply_motion-IsOnScreen_example :
    (r : Round flat) × (apply_motion flat true readings (negsuc 500, pos 0) pushing ≡ done r)
    × IsOnScreen flat (client_of flat r)
apply_motion-IsOnScreen_example =
    apply_motion-IsOnScreen flat true readings (negsuc 500, pos 0) pushing pushing-IsScreen

-- A move to the left arrives.
abbrev pushed : ClientEvent flat
pushed =
    messages true readings 7 (message_for flat (pos 0) (pos 5) (mouse_move (negsuc 500) (pos 0))) []

handle_event-Hands_example :
    (r : Round flat) × (handle_event flat pushed client ≡ done r)
    × Hands flat client (client_of flat r)
handle_event-Hands_example = handle_event-Hands flat pushed client pushing-IsScreen
