-- ===== src/Relays.antt =====
-- strategies/registry.go and strategies/relays: the requests of the relays, and their registry.
pub mod Payload
pub mod Builders
pub mod Registry
pub mod Support
pub mod Blocks
pub mod Requests
pub mod Registered
mod Tests
