-- ===== src/Gate/Postgres.antt =====
-- internal/application/gate/postgres_repository.go, and insertAuditTx: the repository on a database.
-- The database is a parameter over its contents `W`; a transaction works on a copy of the contents,
-- which the commit takes over and a rollback forgets. A statement is a field of `Sql`.
pub mod Audit
pub mod Laws
pub mod Atomic
pub mod Written
pub mod Refinement
use keelmesh.Prelude.{
  ℕ, String, Bool, true, false, not, Map, Option, none, some, List, [], ◌∷◌, eqb, is_empty, ℤ, ◌==◌,
  if◌then◌else◌, Result, ok, err, Error, wrap, ◌>>=◌,
}
use keelmesh.Gate.Types.{TaskRecord, TaskEntry, AuditEvent}
use keelmesh.Gate.Store.{TaskRepository}

-- A row of `keelmesh_gate_tasks`, but for its key and its dates; the metadata is a JSON text.
pub record Row : Type 0 where
  pub channel_id : String
  pub target_id : String
  pub content : String
  pub metadata : String
  pub error : String
  pub result : String
  pub progress : String
  pub progress_state : String
  pub state : String
  pub last_sequence : ℤ
  pub last_event_id : String
  pub attempt : ℤ
  pub max_attempts : ℤ
  pub max_wall_time_ms : ℤ
  pub require_approval : Bool
  pub approval_granted : Bool

unfoldable pub row_of : String → TaskRecord → Row
row_of text t = record {
  channel_id = t.channel_id;
  target_id = t.target_id;
  content = t.content;
  metadata = text;
  error = t.error;
  result = t.result;
  progress = t.progress;
  progress_state = t.progress_state;
  state = t.state;
  last_sequence = t.last_sequence;
  last_event_id = t.last_event_id;
  attempt = t.attempt;
  max_attempts = t.max_attempts;
  max_wall_time_ms = t.max_wall_time_ms;
  require_approval = t.require_approval;
  approval_granted = t.approval_granted;
}

-- The record that `Scan` fills from a row.
unfoldable pub task_of_row : Map String → Row → TaskRecord
task_of_row metadata r = record {
  channel_id = r.channel_id;
  target_id = r.target_id;
  content = r.content;
  metadata = metadata;
  error = r.error;
  result = r.result;
  progress = r.progress;
  progress_state = r.progress_state;
  state = r.state;
  last_sequence = r.last_sequence;
  last_event_id = r.last_event_id;
  attempt = r.attempt;
  max_attempts = r.max_attempts;
  max_wall_time_ms = r.max_wall_time_ms;
  require_approval = r.require_approval;
  approval_granted = r.approval_granted;
}

-- `json.Marshal` and `json.Unmarshal` of metadata.
pub record Codec : Type 0 where
  pub marshal : Map String → Result String
  pub unmarshal : String → Result (Map String)

-- The statements of the file. A query for no row answers `ok none`; a listing answers its scanned
-- rows and the error of `rows.Err`.
pub record Sql (W : Type 0) : Type 0 where
  pub begin : W → Option Error
  pub commit : W → W → W × Option Error
  pub lock : W → String → Option Error
  pub select_state : W → String → Result (Option String)
  pub select_task : W → String → Result (Option Row)
  pub select_by_state : W → List String → Result (List (Result (String × Row)) × Option Error)
  pub insert_task : W → String → Row → W × Option Error
  pub update_task : W → String → Row → W × Option Error
  pub upsert_task : W → String → Row → W × Option Error
  pub insert_audit : W → AuditEvent → W × Option Error

-- The event that `insertAuditTx` writes, with the answers of `uuid.NewString` and of the clock.
unfoldable pub dated : String → ℕ → AuditEvent → AuditEvent
dated uuid now event = record event {
  id = if event.id == "" then uuid else event.id;
  occurred_at = if eqb event.occurred_at 0 then now else event.occurred_at;
}

-- An answer with its error wrapped.
abbrev pub wrapped : {W : Type 0} → String → List String → W × Option Error → W × Option Error
wrapped text args (w, none) = (w, none)
wrapped text args (w, some e) = (w, some (wrap text args e))

-- The next statement, unless the one before it failed.
abbrev pub and_then : {W : Type 0} → W × Option Error → (W → W × Option Error) → W × Option Error
and_then (w, none) next = next w
and_then (w, some e) next = (w, some e)

-- Whether a transition was applied.
abbrev pub answered : {W : Type 0} → W × Option Error → W × Bool × Option Error
answered (w, none) = (w, true, none)
answered (w, some e) = (w, false, some e)

module _ {W : Type 0} (codec : Codec) (sql : Sql W) (uuid : String) (now : ℕ) where
  -- The end of a transaction on `w` that has come to `tx`: a rollback, or the commit.
  abbrev pub finish_tx : W → W × Option Error → String → W × Option Error
  finish_tx w (tx, some e) text = (w, some e)
  finish_tx w (tx, none) text = wrapped text [] (sql.commit w tx)

  -- `insertAuditTx`.
  unfoldable pub insert_audit_tx : W → AuditEvent → W × Option Error
  unfolding dated
  insert_audit_tx tx event =
      wrapped "gatecore: insert audit in task transaction: %w" []
        (sql.insert_audit tx (dated uuid now event))

  -- `if enqueue != nil { … }`.
  abbrev pub enqueue_in_tx : Option (W → W × Option Error) → W → W × Option Error
  enqueue_in_tx none tx = (tx, none)
  enqueue_in_tx (some enqueue) tx =
      wrapped "gatecore: enqueue transition delivery: %w" [] (enqueue tx)

  -- The writes of an audited transition.
  unfoldable pub write_transition :
      W → String → Row → AuditEvent → Option (W → W × Option Error) → W × Option Error
  unfolding insert_audit_tx
  write_transition w id row event enqueue =
      and_then
        (and_then (wrapped "gatecore: write audited transition: %w" [] (sql.update_task w id row))
          (λ tx. insert_audit_tx tx event))
        (enqueue_in_tx enqueue)

  -- `transitionWithAudit`, once the transaction holds the lock.
  unfoldable pub transition_locked :
      W
      → String
      → String
      → Row
      → AuditEvent
      → Option (W → W × Option Error)
      → W × Bool × Option Error
  unfolding write_transition
  transition_locked w id expected row event enqueue = elim (sql.select_state w id) [
    | err e ↦ (w, false, some (wrap "gatecore: read audited transition state: %w" [] e))
    | ok none ↦ (w, false, none)
    | ok (some state) ↦
        if not (state == expected)
        then (w, false, none)
        else answered (
            finish_tx w (write_transition w id row event enqueue)
              "gatecore: commit audited transition: %w")
  ]

  -- `transitionWithAudit`.
  unfoldable pub transition_and_audit :
      W
      → String
      → String
      → TaskRecord
      → AuditEvent
      → Option (W → W × Option Error)
      → W × Bool × Option Error
  unfolding transition_locked row_of
  transition_and_audit w id expected task event enqueue = elim (codec.marshal task.metadata) [
    | err e ↦ (w, false, some (wrap "gatecore: encode transition task %q metadata: %w" (id ∷ []) e))
    | ok text ↦ elim (sql.begin w) [
      | some e ↦ (w, false, some (wrap "gatecore: begin audited transition: %w" [] e))
      | none ↦ elim (sql.lock w id) [
        | some e ↦ (w, false, some (wrap "gatecore: lock audited transition: %w" [] e))
        | none ↦ transition_locked w id expected (row_of text task) event enqueue
      ]
    ]
  ]

  -- `Transition`, once the transaction holds the lock.
  unfoldable pub plain_locked : W → String → String → Row → W × Bool × Option Error
  plain_locked w id expected row = elim (sql.select_state w id) [
    | err e ↦ (w, false, some (wrap "gatecore: read task transition state: %w" [] e))
    | ok none ↦ (w, false, none)
    | ok (some state) ↦
        if not (state == expected)
        then (w, false, none)
        else answered (
            finish_tx w
              (wrapped "gatecore: write task transition: %w" [] (sql.update_task w id row))
              "gatecore: commit task transition: %w")
  ]

  unfoldable pub transition : W → String → String → TaskRecord → W × Bool × Option Error
  unfolding plain_locked row_of
  transition w id expected task = elim (codec.marshal task.metadata) [
    | err e ↦ (w, false, some (wrap "gatecore: encode transition task %q metadata: %w" (id ∷ []) e))
    | ok text ↦ elim (sql.begin w) [
      | some e ↦ (w, false, some (wrap "gatecore: begin task transition: %w" [] e))
      | none ↦ elim (sql.lock w id) [
        | some e ↦ (w, false, some (wrap "gatecore: lock task transition: %w" [] e))
        | none ↦ plain_locked w id expected (row_of text task)
      ]
    ]
  ]

  unfoldable pub create_with_audit : W → String → TaskRecord → AuditEvent → W × Option Error
  unfolding insert_audit_tx row_of
  create_with_audit w id task event = elim (codec.marshal task.metadata) [
    | err e ↦ (w, some (wrap "gatecore: encode task %q metadata: %w" (id ∷ []) e))
    | ok text ↦ elim (sql.begin w) [
      | some e ↦ (w, some (wrap "gatecore: begin task creation: %w" [] e))
      | none ↦
          finish_tx w
            (and_then
              (wrapped "gatecore: create task: %w" [] (sql.insert_task w id (row_of text task)))
              (λ tx. insert_audit_tx tx event))
            "gatecore: commit task creation: %w"
    ]
  ]

  unfoldable pub put : W → String → TaskRecord → W × Option Error
  unfolding row_of
  put w id task = elim (codec.marshal task.metadata) [
    | err e ↦ (w, some (wrap "gatecore: encode task %q metadata: %w" (id ∷ []) e))
    | ok text ↦
        wrapped "gatecore: put task %q: %w" (id ∷ []) (sql.upsert_task w id (row_of text task))
  ]

  -- `if len(metadata) > 0 { … }`.
  unfoldable pub decode : String → Result (Map String)
  decode text = if text == "" then ok [] else codec.unmarshal text

  unfoldable pub get : W → String → Result (Option TaskRecord)
  unfolding decode task_of_row
  get w id = elim (sql.select_task w id) [
    | err e ↦ err (wrap "gatecore: get task %q: %w" (id ∷ []) e)
    | ok none ↦ ok none
    | ok (some row) ↦ elim (decode row.metadata) [
      | err e ↦ err (wrap "gatecore: decode task %q metadata: %w" (id ∷ []) e)
      | ok metadata ↦ ok (some (task_of_row metadata row))
    ]
  ]

  -- The loop of `ListByState` over the rows.
  unfoldable pub scan_rows : List (Result (String × Row)) → Option Error → Result (List TaskEntry)
  unfolding task_of_row
  scan_rows [] none = ok []
  scan_rows [] (some e) = err (wrap "gatecore: iterate recoverable tasks: %w" [] e)
  scan_rows (err e ∷ rest) failure = err (wrap "gatecore: scan recoverable task: %w" [] e)
  scan_rows (ok (id, row) ∷ rest) failure =
      let more = scan_rows rest failure in
      elim (codec.unmarshal row.metadata) [
        | err e ↦ err (wrap "gatecore: decode recoverable task %q metadata: %w" (id ∷ []) e)
        | ok metadata ↦
            more >>= λ entries. ok (record { id = id; task = task_of_row metadata row } ∷ entries)
      ]

  unfoldable pub list_by_state : W → List String → Result (List TaskEntry)
  unfolding scan_rows
  list_by_state w states = if is_empty states then ok [] else elim (sql.select_by_state w states) [
    | err e ↦ err (wrap "gatecore: list tasks by state: %w" [] e)
    | ok (rows, failure) ↦ scan_rows rows failure
  ]

  -- `PostgresTaskRepository`, for one call.
  unfoldable pub postgres_repository : TaskRepository W
  unfolding get put list_by_state transition transition_and_audit create_with_audit
  postgres_repository = record {
    get = get;
    put = put;
    list_by_state = list_by_state;
    transitioner = some transition;
    audited = some (record {
      transition_with_audit =
          λ w id expected task event. transition_and_audit w id expected task event none;
      create_with_audit = create_with_audit;
    });
    transactional = some λ w id expected task event enqueue.
        transition_and_audit w id expected task event (some enqueue);
  }
