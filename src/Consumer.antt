-- ===== src/Consumer.antt =====
-- internal/consumer/handler.go: the Kafka consumer group handler, which parses messages, hands them
-- to a worker over a channel, and writes them to the database in batches.
pub mod Flush
pub mod Session
