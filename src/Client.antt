-- ===== src/Client.antt =====
-- src/client.rs: the client's state, the messages that it applies, the edge at which it gives
-- control back, and its event loop.
pub mod State
pub mod Apply
pub mod Session
pub mod Run
pub mod Exit
pub mod Forwarded
pub mod Motion
pub mod Reader
pub mod Release
pub mod Rounds
pub mod Screen
