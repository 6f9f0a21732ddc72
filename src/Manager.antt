-- ===== src/Manager.antt =====
-- relay_manager.go: which relays are clients, the refund defaults, and the fan-out of a bundle. The
-- shared HTTP client is not modelled.
pub mod Refund
pub mod Build
pub mod Fanout
pub mod Life
mod Tests
