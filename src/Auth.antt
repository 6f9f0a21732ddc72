-- ===== src/Auth.antt =====
-- auth.go and metricsHandler of metrics_handler.go: the password guard of the metrics page.
pub mod Guard
pub mod Handler
pub mod Lockout
pub mod Access
pub mod Password
mod Tests
