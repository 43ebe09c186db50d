-- ===== src/Server/Tasks/Served.antt =====
-- src/server.rs: a client that is registered has a task that writes to it, or its end is on its way.
use bluecross.Base.{
  ℕ, ◌≡◌, subst, subst⁻¹, ◌⊎◌, true, Option, some, List, [], ◌∷◌, String, done, and_then-eq-done,
}
use bluecross.Base.Maps.{lookup}
use bluecross.Json.{Json}
use bluecross.Clipboard.{ClipboardManager}
use bluecross.Config.{ServerConfig}
use bluecross.Server.State.{ClientInfo, Server, Queues, new}
use bluecross.Server.Events.{
  ServerEvent, input, new_client, client_message, client_disconnected, clipboard_changed,
  handle_event,
}
use bluecross.Server.Tasks.{
  World, start, reader_message, reader_ends, handle_next, handle_from, IsLocal, by_device,
  by_clipboard, Step, connects, receives, loses, stops_writing, captures, handles, Reach, here,
  next,
}
use bluecross.Server.Tasks.Queue.{is_ending, HasWriters, IsServed, emit-IsServed}
use bluecross.Server.Tasks.Kept.{IsOther, handle_event-clients}
use bluecross.Server.Tasks.Rounds.{
  done_inj, not_found, at, after, register_connection-IsServed, writer_ends-IsServed, other_handled,
  client_handled, disconnect_handled,
}

module _ {j : Json} where
  module _ (queues : Queues j) (now : ℕ) (server : Server j) (writers : ℕ → Option String) where
    other_round :
        (event : ServerEvent j) (more : List (ServerEvent j)) (t : Server j)
        → IsOther event
        → IsServed (at server writers more event)
        → handle_event j queues now event server ≡ done t
        → IsServed (after server writers more t)
    other_round event more t o h e =
        other_handled server writers more event t o
          (handle_event-clients queues now event server t o e) h

    round :
        (event : ServerEvent j) (more : List (ServerEvent j)) (t : Server j)
        → IsServed (at server writers more event)
        → handle_event j queues now event server ≡ done t
        → IsServed (after server writers more t)
    unfolding handle_event
    round (input event) more t h e = other_round (input event) more t tt h e
    round (client_message name msg) more t h e = other_round (client_message name msg) more t tt h e
    round (clipboard_changed content) more t h e =
        other_round (clipboard_changed content) more t tt h e
    round (new_client name info) more t h e =
        subst (λ u. IsServed (after server writers more u)) (done_inj _ t e)
          (client_handled server writers more name info h)
    round (client_disconnected name) more t h e =
        subst (λ u. IsServed (after server writers more u)) (done_inj _ t e)
          (disconnect_handled server writers more name h)

    -- A round of the loop.
    handle_from-IsServed :
        (events : List (ServerEvent j)) (v : World j)
        → IsServed (record { server = server; writers = writers; events = events })
        → handle_from j queues now server writers events ≡ done v
        → IsServed v
    unfolding handle_from
    handle_from-IsServed [] v h e = subst IsServed (done_inj _ v e) h
    handle_from-IsServed (event ∷ more) v h e =
        let (t, handled, f) =
          and_then-eq-done (handle_event j queues now event server)
            (λ t. done (record { server = t; writers = writers; events = more })) e in
        subst IsServed (done_inj _ v f) (round event more t h handled)

  local_HasWriters :
      (writers : ℕ → Option String) (event : ServerEvent j)
      → IsLocal j event
      → HasWriters writers (event ∷ [])
  local_HasWriters writers _ (by_device event) = tt
  local_HasWriters writers _ (by_clipboard content) = tt

  Step-IsServed :
      (Admits : String → ClientInfo → Type 0) (queues : Queues j) {w v : World j}
      → Step j Admits queues w v
      → IsServed w
      → IsServed v
  unfolding reader_message reader_ends handle_next
  Step-IsServed Admits queues {w} {v} (connects name info admitted fresh e) h =
      subst⁻¹ IsServed e (register_connection-IsServed name info w fresh h)
  Step-IsServed Admits queues {w} {v} (receives name msg e) h =
      subst⁻¹ IsServed e (emit-IsServed (client_message name msg) w tt h)
  Step-IsServed Admits queues {w} {v} (loses name e) h =
      subst⁻¹ IsServed e (emit-IsServed (client_disconnected name) w tt h)
  Step-IsServed Admits queues {w} {v} (stops_writing tx name runs waits e) h =
      subst⁻¹ IsServed e (writer_ends-IsServed tx name w runs waits h)
  Step-IsServed Admits queues {w} {v} (captures event l e) h =
      subst⁻¹ IsServed e (emit-IsServed event w (local_HasWriters w.writers event l) h)
  Step-IsServed Admits queues {w} {v} (handles now e) h =
      handle_from-IsServed queues now w.server w.writers w.events v h e

  start-IsServed :
      (config : ServerConfig) (fds : List ℕ) (clipboard : ClipboardManager) (now : ℕ)
      → IsServed (start j config fds clipboard now)
  unfolding start new lookup
  start-IsServed config fds clipboard now = record {
    registered = λ name info e. absurd (not_found info e);
    pending = tt;
  }

  Reach-IsServed :
      (Admits : String → ClientInfo → Type 0) (queues : Queues j) {w v : World j}
      → Reach j Admits queues w v
      → IsServed w
      → IsServed v
  Reach-IsServed Admits queues here h = h
  Reach-IsServed Admits queues (next r step) h =
      Step-IsServed Admits queues step (Reach-IsServed Admits queues r h)

  -- However connections, messages, losses, ends of writer tasks, local events and rounds of the event
  -- loop follow each other from the start of the server, a registered client has a writer task of its
  -- own queue that runs, unless a disconnect of its name is still among the events.
  pub Reach-start-IsServed :
      (Admits : String → ClientInfo → Type 0) (queues : Queues j) (config : ServerConfig)
      (fds : List ℕ) (clipboard : ClipboardManager) (now : ℕ) (w : World j) (name : String)
      (info : ClientInfo)
      → Reach j Admits queues (start j config fds clipboard now) w
      → lookup name w.server.clients ≡ some info
      → (w.writers info.tx ≡ some name) ⊎ (is_ending name w.events ≡ true)
  Reach-start-IsServed Admits queues config fds clipboard now w name info r found =
      (Reach-IsServed Admits queues r (start-IsServed config fds clipboard now)).registered name
        info found
