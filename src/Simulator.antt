-- ===== src/Simulator.antt =====
-- simulator.go: a bundle simulated at Flashbots, in the background.
pub mod Amounts
pub mod Printing
pub mod Tenderly
pub mod Run
pub mod Forwarding
mod Tests
