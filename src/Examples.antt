-- ===== src/Examples.antt =====
-- examples: entities, services and sagas of the example applications.
pub mod Tests
pub mod Money
pub mod LineItems
pub mod Order
pub mod OrderService
pub mod Customer
pub mod Ticket
pub mod TicketService
