-- ===== src/System.antt =====
-- The running server as a whole: the connections, queue and workers of ws_server.go, the broadcasts of
-- relay_manager.go that the workers run, and the calls of RelayClient.Broadcast in relay_client.go that
-- share one client for each relay, with the tracker that their bundle hashes go to.
pub mod State
pub mod Interleaving
pub mod Load
pub mod Accounts
pub mod Skips
pub mod Recording
pub mod Tests
