-- ===== src/Metrics.antt =====
-- The numbers of the metrics page, from metrics_handler.go.
pub mod Parse
pub mod Readings
pub mod Page
mod Tests
