-- ===== src/Cmd.antt =====
-- cmd: the programs that are made of these parts.
pub mod Consumer
pub mod Client
pub mod Server
pub mod Benchmark
