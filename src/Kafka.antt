-- ===== src/Kafka.antt =====
-- The Kafka side of the service, as far as it is its own code.
pub mod DeadLetters
pub mod Types
pub mod Client
pub mod Recovery
pub mod Strategies
pub mod Processor
