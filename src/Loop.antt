-- ===== src/Loop.antt =====
-- internal/application/loop/service.go: runs of steps, and the service that starts, advances and
-- cancels them.
pub mod Types
pub mod Service
pub mod Postgres
pub mod Invariant
pub mod Stored
