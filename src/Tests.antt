-- ===== src/Tests.antt =====
-- The theorems at concrete inputs, and the small implementations of the interfaces that they use.
mod Flat
mod Plain
mod Protocol
mod Stream
mod Connection
mod Daemon
mod Clipboard
mod Program
mod Tasks
mod Admission
mod Run
mod Devices
mod Server
mod Client
