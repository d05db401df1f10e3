-- ===== src/Saga.antt =====
-- packages/sagas: the orchestration of sagas, their steps, the locks and the participants.
pub mod State
pub mod Actions
pub mod Builder
pub mod Step
pub mod Definition
pub mod Instance
pub mod Locks
pub mod Manager
pub mod Correlation
pub mod Participant
pub mod Tests
