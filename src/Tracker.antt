-- ===== src/Tracker.antt =====
-- tracker.go: bundle hashes of the builders, joined with simulation results and written to files.
pub mod Events
pub mod Records
pub mod Loop
pub mod Flush
pub mod Writing
pub mod Found
pub mod Fates
pub mod Entries
pub mod Keys
pub mod Order
pub mod Invariant
pub mod Process
pub mod Shutdown
mod Tests
