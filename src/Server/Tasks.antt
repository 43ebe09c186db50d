-- ===== src/Server/Tasks.antt =====
-- src/server.rs: the tasks of the clients' connections, and the queue of events between them and the
-- event loop. A step is one send into that queue, or one round of the loop.
pub mod Kept
pub mod Queue
pub mod Rounds
pub mod Admitted
pub mod Served
pub mod Reconnect
use Prim.Native.Nat.{ℕ}
use bluecross.Base.{
  ◌≡◌, Bool, true, false, Option, none, some, List, [], ◌∷◌, ◌++◌, String, ◌==◌, ◌||◌, Outcome,
  done, and_then, if◌then◌else◌,
}
use bluecross.Json.{Json}
use bluecross.Protocol.{Message}
use bluecross.Capture.{CaptureEvent}
use bluecross.Clipboard.{ClipboardManager}
use bluecross.Config.{ServerConfig}
use bluecross.Server.State.{ClientInfo, Server, Queues, new}
use bluecross.Server.Events.{
  ServerEvent, input, new_client, client_message, client_disconnected, clipboard_changed,
  handle_event,
}

module _ (j : Json) where
  -- `writers` tells of the queue of each writer task that runs whose client it serves; `events` is the
  -- channel `event_tx`, oldest event first.
  pub record World : Type 0 where
    pub server : Server j
    pub writers : ℕ → Option String
    pub events : List (ServerEvent j)

  unfoldable pub start : ServerConfig → List ℕ → ClipboardManager → ℕ → World
  start config device_fds clipboard now = record {
    server = record (new j config clipboard now) { device_fds = device_fds };
    writers = λ tx. none;
    events = [];
  }

  abbrev pub emit : ServerEvent j → World → World
  emit event w = record w { events = w.events ++ event ∷ [] }

  -- The end of `handle_new_connection`: the writer task, and the registration.
  unfoldable pub register_connection : String → ClientInfo → World → World
  register_connection name info w =
      emit (new_client name info)
        (record w { writers = λ tx. if tx == info.tx then some name else w.writers tx })

  -- What the reader task makes of a message, and of the end of the stream or an error.
  unfoldable pub reader_message : String → Message j.Value → World → World
  reader_message name msg w = emit (client_message name msg) w

  unfoldable pub reader_ends : String → World → World
  reader_ends name w = emit (client_disconnected name) w

  -- What follows the loop of `spawn_client_writer`.
  unfoldable pub writer_ends : ℕ → String → World → World
  writer_ends ended name w =
      emit (client_disconnected name)
        (record w { writers = λ tx. if tx == ended then none else w.writers tx })

  -- The loop's next round, with these events in the channel.
  unfoldable pub handle_from :
      Queues j → ℕ → Server j → (ℕ → Option String) → List (ServerEvent j) → Outcome World
  unfolding handle_event
  handle_from queues now server writers [] =
      done (record { server = server; writers = writers; events = [] })
  handle_from queues now server writers (event ∷ more) =
      and_then (handle_event j queues now event server)
        (λ t. done (record { server = t; writers = writers; events = more }))

  unfoldable pub handle_next : Queues j → ℕ → World → Outcome World
  unfolding handle_from
  handle_next queues now w = handle_from queues now w.server w.writers w.events

  -- Whether the registration of a queue is still to be handled. Until then nobody sends to the queue,
  -- and its sender is held, so that its writer waits.
  abbrev pub is_pending : ℕ → List (ServerEvent j) → Bool
  is_pending tx [] = false
  is_pending tx (new_client name info ∷ more) = info.tx == tx || is_pending tx more
  is_pending tx (_ ∷ more) = is_pending tx more

  -- Events of the server's own devices and clipboard.
  pub data IsLocal : ServerEvent j → Type 0 where
    by_device : (event : CaptureEvent) → IsLocal (input event)
    by_clipboard : (content : String) → IsLocal (clipboard_changed content)

  -- `Admits` says which connections get as far as the registration.
  pub data Step (Admits : String → ClientInfo → Type 0) (queues : Queues j) (w v : World)
      : Type 0 where
    connects :
        (name : String) (info : ClientInfo)
        → Admits name info
        → w.writers info.tx ≡ none
        → v ≡ register_connection name info w
        → Step Admits queues w v
    receives :
        (name : String) (msg : Message j.Value)
        → v ≡ reader_message name msg w
        → Step Admits queues w v
    loses : (name : String) → v ≡ reader_ends name w → Step Admits queues w v
    stops_writing :
        (tx : ℕ) (name : String)
        → w.writers tx ≡ some name
        → is_pending tx w.events ≡ false
        → v ≡ writer_ends tx name w
        → Step Admits queues w v
    captures : (event : ServerEvent j) → IsLocal event → v ≡ emit event w → Step Admits queues w v
    handles : (now : ℕ) → handle_next queues now w ≡ done v → Step Admits queues w v

  pub data Reach (Admits : String → ClientInfo → Type 0) (queues : Queues j) (w : World)
      : World → Type 0 where
    here : Reach Admits queues w w
    next :
        {u v : World} → Reach Admits queues w u → Step Admits queues u v → Reach Admits queues w v
