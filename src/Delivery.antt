-- ===== src/Delivery.antt =====
-- The durable delivery of a task's answers: the messages of the outbox, and their publishers.
pub mod Outbox
pub mod Router
pub mod Laws
