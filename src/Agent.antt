-- ===== src/Agent.antt =====
-- internal/application/agent: the event store of a task, and the service that publishes an
-- execution's events and follows them.
pub mod Events
pub mod Service
pub mod Backends
pub mod Postgres
pub mod Laws
