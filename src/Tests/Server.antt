-- ===== src/Tests/Server.antt =====
-- src/server.rs with a client to the left of the screen.
use bluecross.Base.{
  ℕ, ◌≡◌, refl, true, false, some, List, [], ◌∷◌, ℤ, pos, negsuc, arith, done, ◌+ℤ◌, ◌&&◌, ◌++◌,
  map, if◌then◌else◌, ◌+ℤ◌, ◌-ℤ◌, ◌*ℤ◌,
}
use bluecross.Capture.{key, mouse_move}
use bluecross.Clipboard
use bluecross.Config.{left, right, ServerConfig}
use bluecross.Server.State.{ClientInfo, Server, Queues, SendStatus, new}
use mathlib.Core.List.Perm
use bluecross.Server.Edge.Order.{reached, one, check_edge-perm}
use bluecross.Server.Edge.{check_edge}
use bluecross.Server.Edge.Entry.{HasScreen, first_entry, check_edge-first_entry}
use bluecross.Server.Events.{
  handle_client_message, broadcast_clipboard, ServerEvent, input, new_client, client_message,
  client_disconnected, event_loop,
}
use bluecross.Server.Invariant.{is_some, IsScreen, Inv}
use bluecross.Server.Invariant.Parts.{new-Inv}
use bluecross.Server.Invariant.Moves.{Keeps}
use bluecross.Server.Invariant.Loop.{event_loop-Keeps}
use bluecross.Server.Grabs.{grab_after, is_in}
use bluecross.Server.Grabs.Released.{started as begun, event_loop-grabs}
use bluecross.Protocol.{Message}
use bluecross.Protocol.Builders
use bluecross.Base.Maps.{lookup}
use bluecross.Base.Words.{sub_i32, mul_i32, as_i32}
use bluecross.Server.Motion.Sent.{
  handle_moves, IsServed, Conserves, motion_call, motion_to, handle_moves-Conserves,
}
use bluecross.Json.{HasDistinctKeys}
use bluecross.Server.Delivery.{delivered}
use bluecross.Server.Relay.{
  to_each, to_whom, others, writes, handle_client_message-others, broadcast_clipboard-to_each,
}
use bluecross.Tests.Flat.{flat, flat-JsonLaws}
use bluecross.Tests.Protocol.{hello}

abbrev pub config : ServerConfig
config = record {
  host = "0.0.0.0";
  port = 5678;
  screen_width = pos 1920;
  screen_height = pos 1080;
  edge_threshold = pos 2;
  clipboard_sharing = true;
  psk = "correct horse battery";
  clients = ("laptop", left) ∷ [];
}

abbrev pub laptop : ClientInfo
laptop = record { position = left; screen_width = pos 1366; screen_height = pos 768; tx = 0 }

screen : IsScreen (pos 1920) (pos 1080)
screen = record {
  wide = omega arith;
  high = omega arith;
  width_i32 = record { low = omega arith; high = omega arith };
  height_i32 = record { low = omega arith; high = omega arith };
}

-- The first queue is full from the start.
abbrev pub queues : Queues flat
queues calls tx msg = SendStatus.full

abbrev started : Server flat
started = new flat config Clipboard.new 0

abbrev with_client : Server flat
with_client = record started { clients = ("laptop", laptop) ∷ [] }

abbrev pub events : List (ℕ × ServerEvent flat)
events =
    (1, new_client "laptop" laptop)
    ∷ (2, input (mouse_move (negsuc 2000) (pos 5)))
    ∷ (3, input (key 30 (pos 1)))
    ∷ (3_000_000, input (mouse_move (pos 7) (pos 0)))
    ∷ (3_000_001, client_message "laptop" hello)
    ∷ (3_000_002, client_disconnected "laptop")
    ∷ []

event_loop-Keeps_example : Keeps queues (event_loop flat queues events started)
event_loop-Keeps_example =
    event_loop-Keeps queues events started (new-Inv config Clipboard.new 0 screen)

event_loop-grabs_example :
    (t : Server flat) × (event_loop flat queues events
        (begun queues (4 ∷ 9 ∷ []) config Clipboard.new 0)
      ≡ done t)
    × ((fd : ℕ)
        → grab_after flat fd false t.calls ≡ (is_some t.active_client && is_in fd (4 ∷ 9 ∷ [])))
event_loop-grabs_example = event_loop-grabs queues (4 ∷ 9 ∷ []) config Clipboard.new 0 events screen

has_screen : HasScreen started.config
unfolding new
has_screen = record { wide = omega arith; high = omega arith }

check_edge-first_entry_example :
    check_edge flat with_client (pos 1) (pos 540)
    ≡ done (first_entry with_client.config (pos 1) (pos 540) with_client.clients)
check_edge-first_entry_example =
    check_edge-first_entry flat with_client (pos 1) (pos 540) has_screen

-- A client on the left and one on the right.
abbrev both_sides : Server flat
both_sides = record started {
  clients = ("laptop", laptop) ∷ ("desk", record laptop { position = right; tx = 1 }) ∷ [];
}

reaches_laptop :
    reached both_sides.config (pos 1) (pos 540) both_sides.clients
    ≡ one ("laptop", pos 1266, pos 384)
unfolding new sub_i32 as_i32 mul_i32 ◌+ℤ◌ ◌-ℤ◌ ◌*ℤ◌
reaches_laptop = refl

check_edge-perm_example :
    check_edge flat
      (record both_sides {
        clients = ("desk", record laptop { position = right; tx = 1 }) ∷ ("laptop", laptop) ∷ [];
      })
      (pos 1)
      (pos 540)
    ≡ check_edge flat both_sides (pos 1) (pos 540)
check_edge-perm_example =
    check_edge-perm flat both_sides
      (("desk", record laptop { position = right; tx = 1 }) ∷ ("laptop", laptop) ∷ []) (pos 1)
      (pos 540) has_screen (Perm.swap _ _ _) (λ e. cc (reaches_laptop, e))

-- Queues that take everything.
abbrev open_queues : Queues flat
open_queues calls tx msg = SendStatus.sent

abbrev served : Server flat
served = record with_client {
  active_client = some "laptop";
  grabbed = true;
  clipboard_paused = true;
  pending_dx = pos 4;
}

abbrev moves : List (ℕ × ℤ × ℤ)
moves = (1_000, pos 3, pos 0) ∷ (2_000_000, pos 5, negsuc 0) ∷ []

served-IsServed : IsServed open_queues "laptop" laptop served
served-IsServed = record { active = refl; known = unfold lookup in refl }

served-Inv : Inv served
unfolding new lookup
served-Inv = record {
  coherent = record {
    screen = screen;
    grabbed = refl;
    paused = refl;
    x_low = omega arith;
    x_high = omega arith;
    y_low = omega arith;
    y_high = omega arith;
    at_rest = tt;
  };
  known = (laptop, refl);
}

handle_moves-Conserves_example :
    (t : Server flat) × (handle_moves open_queues moves served ≡ done t)
    × (c : Conserves open_queues laptop
        (pos 3 +ℤ (pos 5 +ℤ pos 0))
        (pos 0 +ℤ (negsuc 0 +ℤ pos 0))
        served
        t)
    × (delivered open_queues served.calls (map (motion_call open_queues 0) c.motions)
        ≡ map (motion_to open_queues 0) c.motions)
    × IsServed open_queues "laptop" laptop t
handle_moves-Conserves_example =
    handle_moves-Conserves open_queues moves "laptop" laptop served (λ calls msg. refl) served-Inv
      served-IsServed

abbrev two_clients : Server flat
two_clients = record started {
  clients = ("laptop", laptop) ∷ ("desk", record laptop { tx = 1 }) ∷ [];
}

two_clients-HasDistinctKeys : HasDistinctKeys two_clients.clients
unfolding lookup
two_clients-HasDistinctKeys = (refl, (refl, tt))

abbrev greeting : Message flat.Value
greeting = Builders.clipboard_data flat "hello"

handle_client_message-others_example :
    (handle_client_message flat open_queues "laptop" greeting two_clients ≡ record two_clients {
      clipboard = (Clipboard.set two_clients.clipboard "hello").0;
      calls =
          (two_clients.calls ++ writes "hello")
          ++ to_each {j = flat} greeting (others "laptop" two_clients.clients);
    })
    × (delivered open_queues
          (two_clients.calls ++ writes "hello")
          (to_each {j = flat} greeting (others "laptop" two_clients.clients))
        ≡ to_whom greeting (others "laptop" two_clients.clients))
handle_client_message-others_example =
    handle_client_message-others open_queues "hello" "laptop" two_clients flat-JsonLaws
      two_clients-HasDistinctKeys (unfold new in refl) (λ calls msg. refl, tt)

broadcast_clipboard-to_each_example :
    (broadcast_clipboard flat open_queues "hello" two_clients ≡ record two_clients {
      calls =
          two_clients.calls
          ++ (if two_clients.clipboard_paused
              then []
              else to_each {j = flat} greeting two_clients.clients);
    })
    × (delivered open_queues two_clients.calls (
          if two_clients.clipboard_paused
          then []
          else to_each {j = flat} greeting two_clients.clients)
        ≡ (if two_clients.clipboard_paused then [] else to_whom greeting two_clients.clients))
broadcast_clipboard-to_each_example =
    broadcast_clipboard-to_each open_queues "hello" two_clients two_clients-HasDistinctKeys
      (λ calls msg. refl, (λ calls msg. refl, tt))
