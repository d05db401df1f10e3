-- ===== src/Events.antt =====
-- packages/events: aggregates that are stored as events, and domain events.
pub mod Access
pub mod Aggregates
pub mod Crud
pub mod Domain
pub mod Repository
pub mod Schema
pub mod Snapshot
pub mod Store
pub mod Tests
pub mod Workflow
