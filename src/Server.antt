-- ===== src/Server.antt =====
-- src/server.rs: the event loop's state and its handlers (`State`, `Edge`, `Input`, `Events`), and
-- what is proved of them.
pub mod State
pub mod Edge
pub mod Input
pub mod Events
pub mod Invariant
pub mod Grabs
pub mod Delivery
pub mod Motion
pub mod Relay
pub mod Tasks
pub mod Run
