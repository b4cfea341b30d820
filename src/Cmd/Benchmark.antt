-- ===== src/Cmd/Benchmark.antt =====
-- cmd/benchmark: the load generators, one for Kafka and one for the servers.
pub mod Kafka
pub mod Bots
pub mod Ramp
pub mod Monitor
