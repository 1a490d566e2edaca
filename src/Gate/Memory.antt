-- ===== src/Gate/Memory.antt =====
-- internal/application/gate/repository.go and the memory store of audit.go. The locks make each
-- operation atomic.
use keelmesh.Prelude.{
  ℕ, suc, ◌-◌, String, Bool, true, false, ◌&&◌, not, Map, lookup, insert, Option, none, some, List,
  [], ◌∷◌, ◌++◌, length, drop, any, ltb, eqb, ℤ, pos, pos_part, ltb_ℤ, ◌==◌, if◌then◌else◌, ok,
  Error,
}
use keelmesh.Gate.Types.{TaskRecord, TaskEntry, AuditEvent}
use keelmesh.Gate.Store.{TaskRepository, AuditStore}

-- What the process takes from outside: the n-th value of `uuid.NewString` and of the clock.
pub record Outside : Type 0 where
  pub uuid : ℕ → String
  pub time : ℕ → ℕ

-- `memoryTaskRepository` and `memoryAuditStore`, with the number of appends so far.
pub record Memory : Type 0 where
  pub tasks : Map TaskRecord
  pub events : Map (List AuditEvent)
  pub appended : ℕ

abbrev pub empty : Memory
empty = record { tasks = []; events = []; appended = 0 }

unfoldable pub transition : Memory → String → String → TaskRecord → Memory × Bool × Option Error
transition m id expected entry = elim (lookup id m.tasks) [
  | none ↦ (m, false, none)
  | some current ↦
      if not (current.state == expected)
      then (m, false, none)
      else (record m { tasks = insert id entry m.tasks }, true, none)
]

unfoldable pub put : Memory → String → TaskRecord → Memory × Option Error
put m id entry = (record m { tasks = insert id entry m.tasks }, none)

-- The loop of `ListByState`, in the order in which `range` visits the map.
unfoldable pub list_by_state : Map TaskRecord → List String → List TaskEntry
list_by_state [] states = []
list_by_state ((id, task) ∷ rest) states =
    let found = list_by_state rest states in
    if any (λ state. task.state == state) states
    then record { id = id; task = task } ∷ found
    else found

unfoldable pub events_of : String → Map (List AuditEvent) → List AuditEvent
events_of id events = elim (lookup id events) [ none ↦ [] | some items ↦ items ]

unfoldable pub stamp : Outside → ℕ → AuditEvent → AuditEvent
stamp o n event = record event {
  id = if event.id == "" then o.uuid n else event.id;
  occurred_at = if eqb event.occurred_at 0 then o.time n else event.occurred_at;
}

unfoldable pub append : Outside → Memory → AuditEvent → Memory × Option Error
unfolding events_of stamp
append o m event = (
  record m {
    events =
        insert event.task_id (events_of event.task_id m.events ++ stamp o m.appended event ∷ [])
          m.events;
    appended = suc m.appended;
  },
  none,
)

-- `memoryAuditStore.List`.
unfoldable pub list : Memory → String → ℤ → List AuditEvent
unfolding events_of
list m id limit =
    let items = events_of id m.events in
    if ltb_ℤ (pos 0) limit && ltb (pos_part limit) (length items)
    then drop (length items - pos_part limit) items
    else items

unfoldable pub repository : TaskRepository Memory
unfolding transition put
repository = record {
  get = λ m id. ok (lookup id m.tasks);
  put = put;
  list_by_state = λ m states. ok (list_by_state m.tasks states);
  transitioner = some transition;
  audited = none;
  transactional = none;
}

unfoldable pub audit_store : Outside → AuditStore Memory
unfolding append
audit_store o = append o
