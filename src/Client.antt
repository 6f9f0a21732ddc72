-- ===== src/Client.antt =====
-- client/client.go: the client that bots use to send bundles over a WebSocket.
pub mod Send
pub mod Threads
pub mod Alone
pub mod Races
mod Tests
