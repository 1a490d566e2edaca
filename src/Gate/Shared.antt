-- ===== src/Gate/Shared.antt =====
-- The service of `New()` (internal/application/gate/service.go) among others that use its stores: a
-- read, a write and an append of an audit event hold the lock of their store one at a time, so other
-- operations come in between. An operation runs with a view, the contents that its read met, which
-- may be older than what it then writes to; the event that it appends is pending until its append.
use keelmesh.Prelude.{
  ℕ, get_elem?, remove_at, String, Bool, true, false, ◌≡◌, refl, ap, ◌∙◌, Map, insert, lookup,
  Option, none, some, List, [], ◌∷◌, ◌++◌, arith, ◌==◌, if◌then◌else◌, ok, Error,
}
use keelmesh.Gate.Types.{TaskRecord, AuditEvent}
use keelmesh.Gate.Store.{TaskRepository, AuditStore}
use keelmesh.Gate.Memory.{Outside, Memory, empty, transition, put, list_by_state, append}
use keelmesh.Gate.Service.{Service, plain_event, transition_with_audit, create_with_audit}

-- The memory stores, what the reads of the present operation meet, and the events of the writes
-- whose appends are still to come, oldest first.
pub record Shared : Type 0 where
  pub memory : Memory
  pub view : Map TaskRecord
  pub pending : List AuditEvent

-- `memoryTaskRepository`, with reads from the view.
unfoldable pub shared_repository : TaskRepository Shared
unfolding transition put
shared_repository = record {
  get = λ w id. ok (lookup id w.view);
  put =
      λ w id entry. let (m, failure) = put w.memory id entry in (record w { memory = m }, failure);
  list_by_state = λ w states. ok (list_by_state w.view states);
  transitioner = some λ w id expected entry.
      let (m, applied, failure) = transition w.memory id expected entry in
      (record w { memory = m }, applied, failure);
  audited = none;
  transactional = none;
}

-- The append of an event, which its store takes later. The append of the memory store never fails.
unfoldable pub post : AuditStore Shared
post w event = (record w { pending = w.pending ++ event ∷ [] }, none)

-- `New()`.
unfoldable pub shared_service : Service Shared
unfolding shared_repository post
shared_service = record {
  world = record { memory = empty; view = []; pending = [] };
  tasks = shared_repository;
  audit = some post;
  executor = none;
  dispatcher = none;
  cancels = [];
  contexts = 0;
  cancelled = [];
  spawned = [];
}

-- What every service that started as `New()` keeps.
pub record IsShared (s : Service Shared) : Type 0 where
  pub tasks : s.tasks ≡ shared_repository
  pub audit : s.audit ≡ some post

pub shared_service-IsShared : IsShared shared_service
unfolding shared_service
shared_service-IsShared = record { tasks = refl; audit = refl }

abbrev pub stored : Shared → String → TaskRecord → Shared
stored w id task = record w { memory = record w.memory { tasks = insert id task w.memory.tasks } }

abbrev pub posted : Shared → AuditEvent → Shared
posted w event = record w { pending = w.pending ++ event ∷ [] }

-- The write of a transition, with its event.
unfoldable pub shared_transition :
    Shared → String → String → TaskRecord → AuditEvent → Shared × Bool × Option Error
shared_transition w id expected task event = elim (lookup id w.memory.tasks) [
  | none ↦ (w, false, none)
  | some current ↦
      if current.state == expected
      then (posted (stored w id task) (plain_event event), true, none)
      else (w, false, none)
]

as_shared :
    (s : Service Shared)
    → IsShared s
    → s ≡ record s { tasks = shared_repository; audit = some post }
as_shared s shared = λ i. record s { tasks = shared.tasks i; audit = shared.audit i }

module _ (s : Service Shared) (shared : IsShared s) where
  pub transition_with_audit-shared :
      (id expected : String) (task : TaskRecord) (event : AuditEvent)
      → transition_with_audit s id expected task event
        ≡ shared_transition s.world id expected task event
  unfolding transition_with_audit shared_transition shared_repository post transition
  transition_with_audit-shared id expected task event =
      ap (λ t. transition_with_audit t id expected task event) (as_shared s shared) ∙ ground arith

  pub get-shared : (id : String) → s.tasks.get s.world id ≡ ok (lookup id s.world.view)
  unfolding shared_repository
  get-shared id = rw shared.tasks

  pub create_with_audit-shared :
      (id : String) (task : TaskRecord) (event : AuditEvent)
      → create_with_audit s id task event
        ≡ (posted (stored s.world id task) (plain_event event), none)
  unfolding create_with_audit shared_repository post put
  create_with_audit-shared id task event =
      ap (λ t. create_with_audit t id task event) (as_shared s shared) ∙ ground arith

  pub put-shared :
      (id : String) (task : TaskRecord)
      → s.tasks.put s.world id task ≡ (stored s.world id task, none)
  unfolding shared_repository put
  put-shared id task = rw shared.tasks

-- The append of the n-th pending event.
unfoldable pub append_pending : Outside → Shared → ℕ → Shared
append_pending o w n = elim (get_elem? w.pending n) [
  | none ↦ w
  | some event ↦ record w { memory = (append o w.memory event).0; pending = remove_at n w.pending }
]
