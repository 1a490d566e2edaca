-- ===== src/Gate.antt =====
-- internal/application/gate: the GateCore service, its task store, its audit trail and the
-- execution of tasks.
pub mod Types
pub mod Store
pub mod Memory
pub mod Service
pub mod Handlers
pub mod Admission
pub mod Execution
pub mod Local
pub mod Shared
pub mod Changes
pub mod Refinement
pub mod Invariants
pub mod Moves
pub mod System
pub mod Postgres
pub mod Guarantees
