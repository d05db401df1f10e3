-- ===== src/Messaging.antt =====
-- packages/messaging: messages and their headers, the producer and the consumer side, the brokers.
pub mod Headers
pub mod Message
pub mod Builder
pub mod ChannelMapping
pub mod Producer
pub mod Consumer
pub mod Kafka
pub mod InMemory
pub mod Tests
