-- ===== src/Tests.antt =====
-- Runs at small inputs, and the theorems applied to them.
pub mod Samples
pub mod Rooms
pub mod Loop
pub mod Messages
pub mod Consumers
pub mod Sessions
pub mod Journey
pub mod Statistics
pub mod Heartbeats
pub mod Clients
pub mod Programs
pub mod Benchmarks
