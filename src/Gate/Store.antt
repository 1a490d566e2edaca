-- ===== src/Gate/Store.antt =====
-- The interfaces of internal/application/gate/service.go and audit.go over a stored world `W`: what
-- a task repository, an audit store and an outbound dispatcher offer. An optional Go interface that
-- a value may implement is an `Option`.
use keelmesh.Prelude.{String, Bool, Option, List, Result, Error}
use keelmesh.Gate.Types.{TaskRecord, TaskEntry, Task, ExecutionResult, AuditEvent}

-- `AuditedTaskTransitioner`: the two writes that carry their audit event.
pub record AuditedTaskTransitioner (W : Type 0) : Type 0 where
  pub transition_with_audit :
      W → String → String → TaskRecord → AuditEvent → W × Bool × Option Error
  pub create_with_audit : W → String → TaskRecord → AuditEvent → W × Option Error

-- `TaskRepository`, with `TaskTransitioner`, `AuditedTaskTransitioner` and
-- `TransactionalTaskTransitioner` where the value implements them. The last takes the writes of the
-- callback into its transaction.
pub record TaskRepository (W : Type 0) : Type 0 where
  pub get : W → String → Result (Option TaskRecord)
  pub put : W → String → TaskRecord → W × Option Error
  pub list_by_state : W → List String → Result (List TaskEntry)
  pub transitioner : Option (W → String → String → TaskRecord → W × Bool × Option Error)
  pub audited : Option (AuditedTaskTransitioner W)
  pub transactional : Option (
      W
      → String
      → String
      → TaskRecord
      → AuditEvent
      → (W → W × Option Error)
      → W × Bool × Option Error)

-- `AuditStore.Append`.
abbrev pub AuditStore : Type 0 → Type 0
AuditStore W = W → AuditEvent → W × Option Error

-- `TransactionalOutboundDispatcher`: enqueues inside a transaction of the repository.
pub record TransactionalDispatcher (W : Type 0) : Type 0 where
  pub enqueue_final : Task → ExecutionResult → W → W × Option Error
  pub enqueue_progress : Task → String → String → W → W × Option Error

-- `OutboundDispatcher`, with `TransactionalOutboundDispatcher` and `ProgressDispatcher` where the
-- value implements them.
pub record OutboundDispatcher (W : Type 0) : Type 0 where
  pub dispatch : W → Task → ExecutionResult → W × Option Error
  pub transactional : Option (TransactionalDispatcher W)
  pub progress : Option (W → Task → String → String → W × Option Error)
