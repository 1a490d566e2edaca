-- ===== src/Gate/Local.antt =====
-- The service of `New()` (internal/application/gate/service.go): the memory repository and the
-- memory audit store. `local_transition` is the transition in one piece.
use keelmesh.Prelude.{
  String, Bool, true, false, ◌≡◌, refl, ap, ◌∙◌, insert, lookup, Option, none, some, [], arith,
  ◌==◌, if◌then◌else◌, Error, Result,
}
use keelmesh.Gate.Types.{TaskRecord, AuditEvent}
use keelmesh.Gate.Memory.{Outside, Memory, empty, append, repository, audit_store}
use keelmesh.Gate.Service.{Service, plain_event, transition_with_audit, create_with_audit}

-- `New()`.
unfoldable pub local_service : Outside → Service Memory
unfolding repository audit_store
local_service o = record {
  world = empty;
  tasks = repository;
  audit = some (audit_store o);
  executor = none;
  dispatcher = none;
  cancels = [];
  contexts = 0;
  cancelled = [];
  spawned = [];
}

-- What every service that started as `New()` keeps.
pub record IsLocal (o : Outside) (s : Service Memory) : Type 0 where
  pub tasks : s.tasks ≡ repository
  pub audit : s.audit ≡ some (audit_store o)

pub local_service-IsLocal : (o : Outside) → IsLocal o (local_service o)
unfolding local_service
local_service-IsLocal o = record { tasks = refl; audit = refl }

abbrev pub stored : Memory → String → TaskRecord → Memory
stored m id task = record m { tasks = insert id task m.tasks }

abbrev pub logged : Outside → Memory → AuditEvent → Memory
logged o m event = (append o m event).0

-- The transition in one piece.
unfoldable pub local_transition :
    Outside → Memory → String → String → TaskRecord → AuditEvent → Memory × Bool × Option Error
local_transition o m id expected task event = elim (lookup id m.tasks) [
  | none ↦ (m, false, none)
  | some current ↦
      if current.state == expected
      then (logged o (stored m id task) (plain_event event), true, none)
      else (m, false, none)
]

as_local :
    (o : Outside) (s : Service Memory)
    → IsLocal o s
    → s ≡ record s { tasks = repository; audit = some (audit_store o) }
as_local o s local = λ i. record s { tasks = local.tasks i; audit = local.audit i }

module _ (o : Outside) (s : Service Memory) (local : IsLocal o s) where
  pub transition_with_audit-local :
      (id expected : String) (task : TaskRecord) (event : AuditEvent)
      → transition_with_audit s id expected task event
        ≡ local_transition o s.world id expected task event
  unfolding transition_with_audit local_transition repository audit_store append
  transition_with_audit-local id expected task event =
      ap (λ t. transition_with_audit t id expected task event) (as_local o s local) ∙ ground arith

  pub get-local : (id : String) → s.tasks.get s.world id ≡ Result.ok (lookup id s.world.tasks)
  unfolding repository
  get-local id = rw local.tasks

  pub create_with_audit-local :
      (id : String) (task : TaskRecord) (event : AuditEvent)
      → create_with_audit s id task event
        ≡ (logged o (stored s.world id task) (plain_event event), none)
  unfolding create_with_audit repository audit_store append
  create_with_audit-local id task event =
      ap (λ t. create_with_audit t id task event) (as_local o s local) ∙ ground arith

  pub put-local :
      (id : String) (task : TaskRecord)
      → s.tasks.put s.world id task ≡ (stored s.world id task, none)
  unfolding repository
  put-local id task = rw local.tasks
