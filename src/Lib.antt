-- ===== src/Lib.antt =====
-- BlueCross shares one keyboard, mouse and clipboard between a server machine, which owns the
-- devices, and client machines beside its screen. This library models the program and proves what
-- makes it correct.
--
-- How the parts interact. The server captures input events (src/input_capture.rs), moves its cursor,
-- and, when the cursor touches an edge behind which a client lies, makes that client active: it grabs
-- the devices, pauses the clipboard and sends the point of entry (src/server.rs). From then on input
-- goes to the client as messages (src/protocol.rs) over an encrypted stream (src/secure.rs). The
-- client injects what it receives (src/client.rs, src/input_inject.rs) and gives control back when
-- the cursor has pushed against its own edge for long enough. Clipboard changes travel both ways
-- (src/clipboard.rs). Both sides read a validated configuration (src/config.rs).
--
-- Files and code:
--   Base       names passed on from the libraries, Boolean tests, lists, integers, `i32` and `u16`
--              arithmetic (Base/Words, Base/Wrap), maps (Base/Maps), texts (Base/Text), decimal
--              numbers and their parser (Base/Decimal, Base/Parse), names in order (Base/Names).
--   Json       the part of the crate serde_json that the program calls, as an interface with laws.
--   Protocol   src/protocol.rs. Protocol: MessageType, Message. Protocol/Codec: encode, decode, and
--              in its children what decode makes of whole, cut and overlong encodings.
--              Protocol/Builders: the constructors of messages. Protocol/Buffer:
--              receive_all_buffered. Protocol/Reader: ProtocolReader::receive, ProtocolWriter::send,
--              and in its children that receive ends, and that what was sent is received.
--   Secure     src/secure.rs. Secure: SecureReader::read_chunk, SecureWriter::write_all.
--              Secure/Chunks: slice::chunks. Secure/Handshake: derive_psk, client_handshake,
--              server_handshake. Secure/Snow: the crates snow and sha2 as an interface with laws.
--              Secure/Stream: what the reader gets of what the writer wrote.
--   Config     src/config.rs. Config: ScreenPosition, validate_psk, resolve_dimensions, and both load
--              functions from the raw configuration on. Config/Raw: load_raw, the sections and their
--              defaults, and both load functions from the file on. Config/Position, Config/Load,
--              Config/Raw/Section: proofs.
--   Clipboard  src/clipboard.rs. Clipboard: ClipboardManager and a round of either watcher.
--              Clipboard/Watch: get_clipboard, the loops of both watchers and monitor.
--              Clipboard/Echo, Clipboard/Watch/Fresh: when a value goes out.
--   Capture    src/input_capture.rs. Capture: read_device_events, grab_devices, ungrab_devices.
--              Capture/Devices: discover_devices, start_capture. Capture/Devices/Order: proofs.
--   Inject     src/input_inject.rs: InputInjector. Inject/Replay: captured against injected events.
--   Screen     src/screen.rs: detect_screen_size and its detectors. Screen/Detected: proofs.
--   Server     src/server.rs. Server/State: the record Server and what switches together.
--              Server/Edge: check_edge, and in its
--              children proofs about it. Server/Delivery: which messages get into the queues. Server/Input: handle_input, forward_to_active. Server/Events:
--              the other handlers and the loop of run_async. Server/Run: run_async with its set-up,
--              and in Server/Run/Releases its end. Server/Tasks: the tasks of the connections and the
--              event loop as a step relation, with in its children what holds in every state they
--              reach. Server/Invariant, Server/Grabs, Server/Motion, Server/Relay: proofs about events
--              and sequences of them.
--   Client     src/client.rs. Client/State: ClientState, check_exit_edge. Client/Apply:
--              apply_message. Client/Reader: the reader task. Client/Session: the rounds of the loop of
--              run_async. Client/Run: run_async from its set-up to its end, with in Client/Run/Ends what
--              holds of a run and in Client/Run/Held and Client/Run/Balance how. Client/Exit,
--              Client/Forwarded, Client/Motion, Client/Release, Client/Rounds, Client/Screen,
--              Client/Reader/Delivered: proofs.
--   Connection the application handshake of src/server.rs (handle_new_connection) and src/client.rs
--              (run_async). Connection/Agreement: what both sides know after it. Connection/Accept:
--              handle_new_connection from the socket on. Connection/Admission: who is registered.
--   Daemon     src/daemon.rs. Daemon: what is asked of the system, and its answers. Daemon/Paths,
--              Daemon/Pid, Daemon/Count, Daemon/Fork, Daemon/Log: directories, the pid file,
--              is_running and stop_daemon, daemonize, the logger. Daemon/Ctl: the ctl commands.
--              Daemon/Start: run of src/server.rs and src/client.rs. Daemon/Stop with
--              its child and the children of Pid, Log, Ctl and Start: proofs.
--   Main       src/main.rs: the choice of what to run. Main/Names: proofs.
--   Tests      the theorems at concrete inputs, with a small JSON and a session without encryption.
--
-- State and effects. A handler is a function from a state to a state. What it does to the outside is
-- appended to a list in the state: `calls` of the server (a try_send, an ioctl, a write to the
-- clipboard), `effects` of the client. What the outside answers is an argument: the answers of the
-- queues may depend on all calls before, readings of the clock are natural numbers of nanoseconds, and
-- a socket is the bytes it has still to deliver and whether it takes more. An event loop runs over
-- the list of events it receives, in any order; theorems range over all lists. What the program
-- asks of the kernel, the terminal and other programs is an `Action` in a list, and `Replies` give
-- the answers, which may depend on all actions before: a file may not be removed, and a write that fails
-- may leave the file empty or cut. The logger's files may take a line in part or not at all. The tasks of the server are steps in any
-- order over the queue of events that they share. An error that a function returns is a `Result`; an
-- assertion of the standard library that fails, or a division by zero, is the `panic` of `Outcome`.
-- A HashMap is an association list in some order.
--
-- Numbers. An `i32` is an integer; addition, subtraction and multiplication wrap, as they do in the
-- release profile, and `as` casts keep the low bits. A byte is a natural number; decoders are total on
-- all of them. The length of a frame or a payload is written modulo 2^16 or 2^32, as the casts do.
--
-- Fuel. `receive` runs at most one round for each byte still to come, and one more, since a frame
-- takes at least three bytes; `receive_all_buffered` at most one for each byte of the buffer, since a
-- message takes at least five. Chunking takes the length of the text.
--
-- Hypotheses on other code. The laws of Json are what serde_json documents of its accessors; that a
-- payload survives printing and parsing is a hypothesis on that payload. The laws of Noise are that a
-- synchronised pair of sessions decrypts what it encrypts, in order, while it has nonces. The two
-- halves of a connection share one session under a lock; sending and receiving use separate parts of
-- it, so each half of the model has its own. That a handshake with one key agrees is a hypothesis on
-- the key.
--
-- Not modelled: the calls into serde_json, clap, regex, evdev, snow, sha2, tokio and the kernel, whose
-- answers are arguments; socket options, keepalive among them; flushing of buffered writers; the
-- bounds of the channels, but for the answers of try_send; a terminal that cannot be printed to; what is
-- left of a character that a failed write cuts in two; a lock that a panic has poisoned; Display
-- of message types and the text of most log lines. Build, packaging and service files contain no
-- program logic.
pub mod Base
pub mod Capture
pub mod Client
pub mod Clipboard
pub mod Config
pub mod Connection
pub mod Daemon
pub mod Inject
pub mod Json
pub mod Main
pub mod Protocol
pub mod Screen
pub mod Secure
pub mod Server
pub mod Tests
