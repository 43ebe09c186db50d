-- ===== src/Tests/Tasks.antt =====
-- src/server.rs with a client that connects twice.
use bluecross.Base.{◌≡◌, refl, ◌⊎◌, true, none, some, [], ◌∷◌, String}
use bluecross.Base.Maps.{lookup, insert}
use bluecross.Clipboard
use bluecross.Server.State.{ClientInfo, new}
use bluecross.Server.Events.{handle_event}
use bluecross.Server.Tasks.{
  World, start, register_connection, handle_next, handle_from, connects, handles, Step, Reach, here,
  next,
}
use bluecross.Server.Tasks.Queue.{is_ending}
use bluecross.Server.Tasks.Served.{Reach-start-IsServed}
use bluecross.Server.Tasks.Reconnect.{Reach-evicted}
use bluecross.Tests.Flat.{flat}
use bluecross.Tests.Server.{config, laptop, queues}

abbrev Anyone : String → ClientInfo → Type 0
Anyone name info = Unit

abbrev begun : World flat
begun = start flat config (4 ∷ []) Clipboard.new 0

abbrev connected : World flat
connected = register_connection flat "laptop" laptop begun

abbrev registered : World flat
registered = record connected {
  server = record (new flat config Clipboard.new 0) {
    device_fds = 4 ∷ [];
    clients = ("laptop", laptop) ∷ [];
  };
  events = [];
}

reached : Reach flat Anyone queues begun registered
unfolding start register_connection handle_next handle_from handle_event insert new
reached = next (next here (connects "laptop" laptop tt refl refl)) (handles 0 refl)

found : lookup "laptop" registered.server.clients ≡ some laptop
unfolding lookup
found = refl

Reach-start-IsServed_example :
    (registered.writers 0 ≡ some "laptop") ⊎ (is_ending "laptop" registered.events ≡ true)
Reach-start-IsServed_example =
    Reach-start-IsServed Anyone queues config (4 ∷ []) Clipboard.new 0 registered "laptop" laptop
      reached found

-- The same client once more, with a new queue.
abbrev laptop_again : ClientInfo
laptop_again = record laptop { tx = 1 }

abbrev again : World flat
again = register_connection flat "laptop" laptop_again registered

Reach-evicted_example :
    (t : World flat) × (v : World flat) × Step flat Anyone queues again t
    × (lookup "laptop" t.server.clients ≡ some laptop_again)
    × Reach flat Anyone queues t v
    × (lookup "laptop" v.server.clients ≡ none)
    × (v.writers 1 ≡ some "laptop")
Reach-evicted_example =
    Reach-evicted Anyone queues again "laptop" laptop laptop_again
      (unfold register_connection in refl) (unfold register_connection in refl)
      (unfold register_connection in refl) refl
