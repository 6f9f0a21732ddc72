-- ===== src/Relay.antt =====
-- relay_client.go: one relay's HTTP transport. Logging leaves no trace in the model.
pub mod Transport
pub mod Response
pub mod Client
pub mod Warmup
mod Tests
