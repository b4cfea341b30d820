-- ===== src/Infra.antt =====
-- internal/infra: what the program asks of Redis, and how it opens the database.
pub mod Redis
pub mod Db
pub mod Kafka
