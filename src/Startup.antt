-- ===== src/Startup.antt =====
-- main.go: the configuration, the key, the signer, the manager with its warmup, the guard of the metrics
-- page, the log, the HTTP routes, and the shutdown.
pub mod Begin
pub mod Outcome
pub mod Routes
pub mod Site
pub mod Messages
pub mod Exit
mod Tests
