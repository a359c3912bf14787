-- ===== src/Server.antt =====
-- internal/server: clients on WebSockets in front of Raft and the document state machine.
pub mod Messages
pub mod Node
pub mod Map
pub mod Sound
pub mod Commit
pub mod Run
pub mod Reconnect
pub mod Accept
pub mod Crash
