-- ===== src/Tests.antt =====
-- The theorems at concrete inputs, by component.
pub mod Gate
pub mod Loop
pub mod Agent
pub mod Channel
pub mod Bridge
pub mod Delivery
pub mod Postgres
pub mod Clients
pub mod Runtime
pub mod Events
