-- ===== src/Commands.antt =====
-- packages/commands: commands and their headers, paths, the producer, handlers and the dispatcher.
pub mod Headers
pub mod Command
pub mod Destination
pub mod Paths
pub mod Producer
pub mod Reply
pub mod Handler
pub mod Dispatcher
pub mod Tests
