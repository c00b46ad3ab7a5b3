-- ===== src/File.antt =====
-- src/file.c and include/file.h: file transfer. The pure functions are in Announce, Init, Names,
-- Chunks and Spans; the tasks in Tasks, Send and Receive; what the event loop calls in Events.
pub mod Announce
pub mod Init
pub mod Names
pub mod Chunks
pub mod Spans
pub mod Tasks
pub mod Send
pub mod Receive
pub mod Events
pub mod Paths
pub mod Storage
pub mod Invariant
pub mod Session
pub mod Arriving
pub mod Transfer
