-- ===== src/Tests/Postgres.antt =====
-- The theorems on internal/application/gate/postgres_repository.go at a concrete database, which
-- keeps its tables in maps.
use keelmesh.Prelude.{
  String, Map, refl, List, [], ◌∷◌, ◌++◌, none, some, Option, lookup, insert, lookup-insert, ok,
  err, Error, ◌==◌, eq_iff, arith, if◌then◌else◌, is_some, new, Bool-cases, inl, inr,
}
use keelmesh.Gate.Types.{AuditEvent, audit_event}
use keelmesh.Tests.Gate.{task_in, outside}
use keelmesh.Gate.Memory.{Memory, events_of}
use keelmesh.Gate.Local.{local_transition}
use keelmesh.Gate.Postgres.{Row, Codec, Sql, row_of, transition_and_audit}
use keelmesh.Gate.Postgres.Laws.{row_of-HasColumns, SqlLaws, Holds, Shows, state_column}
use keelmesh.Gate.Postgres.Atomic.{AllOrNothing, transition_and_audit-AllOrNothing}
use keelmesh.Gate.Postgres.Refinement.{Agree, transition_and_audit-Agrees}

record Tables : Type 0 where
  rows : Map Row
  trails : Map (List AuditEvent)

abbrev trail_of : Tables → String → List AuditEvent
trail_of w id = elim (lookup id w.trails) [ none ↦ [] | some items ↦ items ]

abbrev tables : Sql Tables
tables = record {
  begin = λ w. none;
  commit = λ old new. (new, none);
  lock = λ w id. none;
  select_state = λ w id. ok (state_column (lookup id w.rows));
  select_task = λ w id. ok (lookup id w.rows);
  select_by_state = λ w states. ok ([], none);
  insert_task = λ w id row. (record w { rows = insert id row w.rows }, none);
  update_task = λ w id row.
      (if is_some (lookup id w.rows) then record w { rows = insert id row w.rows } else w, none);
  upsert_task = λ w id row. (record w { rows = insert id row w.rows }, none);
  insert_audit = λ w event. (
    record w { trails = insert event.task_id (trail_of w event.task_id ++ event ∷ []) w.trails },
    none,
  );
}

tables-SqlLaws : SqlLaws Tables tables
tables-SqlLaws = record {
  row = λ w id. lookup id w.rows;
  trail = trail_of;
  select_state_ok = λ w id state e. ground (arith, e);
  update_row = λ w id j new fine.
      ground (arith, lookup-insert id j new w.rows, eq_iff id j, λ (k : String). lookup k w.rows);
  update_trail = λ w id j new fine. ground (arith);
  audit_row = λ w event j fine. refl;
  audit_trail = λ w event j fine. ground (
    arith,
    lookup-insert event.task_id j (trail_of w event.task_id ++ event ∷ []) w.trails,
    eq_iff event.task_id j,
  );
  commit_ok = λ old new fine. refl;
  commit_failed = λ old new. inr refl;
}

-- Encodes no metadata but the empty.
abbrev codec : Codec
codec = record {
  marshal =
      λ metadata. elim metadata [ [] ↦ ok "{}" | _ ∷ _ ↦ err (new "json: unsupported value") ];
  unmarshal = λ text. ok [];
}

abbrev database : Tables
database = record { rows = ("t1", row_of "{}" (task_in "queued")) ∷ []; trails = [] }

abbrev memory : Memory
memory = record { tasks = ("t1", task_in "queued") ∷ []; events = []; appended = 0 }

abbrev start_event : AuditEvent
start_event = audit_event "t1" "start" "queued" "running" "agent execution started"

-- A delivery that cannot be put into the outbox.
abbrev broken : Option (Tables → Tables × Option Error)
broken = some λ w. (w, some (new "outbox is closed"))

transition_and_audit-AllOrNothing_example :
    AllOrNothing codec tables tables-SqlLaws "id" 5 database "t1" "queued"
      (task_in "running")
      start_event
      broken
      (transition_and_audit codec tables "id" 5 database "t1" "queued"
        (task_in "running")
        start_event
        broken)
transition_and_audit-AllOrNothing_example =
    transition_and_audit-AllOrNothing codec tables tables-SqlLaws "id" 5 database "t1" "queued"
      (task_in "running") start_event broken

row-Holds : (id : String) → Holds codec (lookup id database.rows) (lookup id memory.tasks)
unfolding lookup
row-Holds id = elim (Bool-cases ("t1" == id)) [
  | inl hit ↦ rw hit ("{}", refl, row_of-HasColumns "{}" (task_in "queued"))
  | inr miss ↦ rw miss tt
]

database-Shows : Shows codec tables-SqlLaws database memory
unfolding lookup events_of tables-SqlLaws
database-Shows = record { rows = row-Holds; trails = λ id. refl }

transition_and_audit-Agrees_example :
    Agree codec tables-SqlLaws "id" 5 outside database memory database-Shows "t1"
      (task_in "running")
      start_event
      (transition_and_audit codec tables "id" 5 database "t1" "queued"
        (task_in "running")
        start_event
        none)
      (local_transition outside memory "t1" "queued" (task_in "running") start_event)
unfolding transition_and_audit lookup
transition_and_audit-Agrees_example =
    transition_and_audit-Agrees codec tables-SqlLaws "id" 5 outside database memory database-Shows
      "t1" (task_in "running") start_event "queued" refl
