-- ===== src/Gate/Postgres/Laws.antt =====
-- What the SQL statements of internal/application/gate/postgres_repository.go do when they succeed,
-- as their PostgreSQL semantics has it, and when the contents of the database show a memory.
use keelmesh.Prelude.{
  String, ◌&&◌, ◌≡◌, ◌⊎◌, refl, lookup, Option, none, some, List, [], ◌∷◌, ◌++◌, map, ◌==◌,
  if◌then◌else◌, is_some, ok,
}
use keelmesh.Gate.Types.{TaskRecord, AuditEvent}
use keelmesh.Gate.Memory.{Memory, events_of}
use keelmesh.Gate.Service.{plain_event}
use keelmesh.Gate.Postgres.{Row, Codec, Sql, row_of}

-- `SELECT state` of a row that may be there.
abbrev pub state_column : Option Row → Option String
state_column none = none
state_column (some row) = some row.state

-- The contents of a database as a table of rows and a trail of events for each task, and what the
-- statements do to them. A failing commit has written all of its transaction or nothing.
pub record SqlLaws (W : Type 0) (sql : Sql W) : Type 0 where
  pub row : W → String → Option Row
  pub trail : W → String → List AuditEvent
  pub select_state_ok :
      (w : W) (id : String) (state : Option String)
      → sql.select_state w id ≡ ok state
      → state ≡ state_column (row w id)
  pub update_row :
      (w : W) (id j : String) (new : Row)
      → (sql.update_task w id new).1 ≡ none
      → row (sql.update_task w id new).0 j
        ≡ (if id == j && is_some (row w id) then some new else row w j)
  pub update_trail :
      (w : W) (id j : String) (new : Row)
      → (sql.update_task w id new).1 ≡ none
      → trail (sql.update_task w id new).0 j ≡ trail w j
  pub audit_row :
      (w : W) (event : AuditEvent) (j : String)
      → (sql.insert_audit w event).1 ≡ none
      → row (sql.insert_audit w event).0 j ≡ row w j
  pub audit_trail :
      (w : W) (event : AuditEvent) (j : String)
      → (sql.insert_audit w event).1 ≡ none
      → trail (sql.insert_audit w event).0 j
        ≡ (if event.task_id == j then trail w j ++ event ∷ [] else trail w j)
  pub commit_ok : (old new : W) → (sql.commit old new).1 ≡ none → (sql.commit old new).0 ≡ new
  pub commit_failed :
      (old new : W) → ((sql.commit old new).0 ≡ old) ⊎ ((sql.commit old new).0 ≡ new)

-- The columns of a row that holds a record, with the text of its metadata.
pub record HasColumns (row : Row) (text : String) (task : TaskRecord) : Type 0 where
  pub channel_id_column : row.channel_id ≡ task.channel_id
  pub target_id_column : row.target_id ≡ task.target_id
  pub content_column : row.content ≡ task.content
  pub error_column : row.error ≡ task.error
  pub result_column : row.result ≡ task.result
  pub progress_column : row.progress ≡ task.progress
  pub progress_state_column : row.progress_state ≡ task.progress_state
  pub state_column : row.state ≡ task.state
  pub last_sequence_column : row.last_sequence ≡ task.last_sequence
  pub last_event_id_column : row.last_event_id ≡ task.last_event_id
  pub attempt_column : row.attempt ≡ task.attempt
  pub max_attempts_column : row.max_attempts ≡ task.max_attempts
  pub max_wall_time_ms_column : row.max_wall_time_ms ≡ task.max_wall_time_ms
  pub require_approval_column : row.require_approval ≡ task.require_approval
  pub approval_granted_column : row.approval_granted ≡ task.approval_granted
  pub metadata_column : row.metadata ≡ text

pub row_of-HasColumns :
    (text : String) (task : TaskRecord) → HasColumns (row_of text task) text task
unfolding row_of
row_of-HasColumns text task = record {
  channel_id_column = refl;
  target_id_column = refl;
  content_column = refl;
  error_column = refl;
  result_column = refl;
  progress_column = refl;
  progress_state_column = refl;
  state_column = refl;
  last_sequence_column = refl;
  last_event_id_column = refl;
  attempt_column = refl;
  max_attempts_column = refl;
  max_wall_time_ms_column = refl;
  require_approval_column = refl;
  approval_granted_column = refl;
  metadata_column = refl;
}

-- A row holds a record, with its metadata encoded.
abbrev pub Holds : Codec → Option Row → Option TaskRecord → Type 0
Holds codec none none = Unit {0}
Holds codec (some row) (some task) =
    (text : String) × (codec.marshal task.metadata ≡ ok text) × HasColumns row text task
Holds codec _ _ = ⊥

-- The database shows what the memory stores: the same records, and the same audit trails but for
-- the events' ids and dates.
pub record Shows {W : Type 0} {sql : Sql W} (codec : Codec) (laws : SqlLaws W sql) (w : W)
    (m : Memory) : Type 0 where
  pub rows : (id : String) → Holds codec (laws.row w id) (lookup id m.tasks)
  pub trails :
      (id : String) → map plain_event (laws.trail w id) ≡ map plain_event (events_of id m.events)
