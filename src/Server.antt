-- ===== src/Server.antt =====
-- ws_server.go: the queue of bundles between the WebSocket connections and the workers.
pub mod State
pub mod Steps
pub mod Balance
pub mod Panics
pub mod Stopping
mod Tests
