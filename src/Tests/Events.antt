-- ===== src/Tests/Events.antt =====
-- The theorems on the database of internal/application/agent/events.go at a concrete database, which
-- keeps its table in a map.
use keelmesh.Prelude.{
  ℕ, ◌+◌, String, Map, refl, List, [], ◌∷◌, ◌++◌, none, some, lookup, insert, lookup-insert, ok,
  err, new, eq_iff, arith,
}
use keelmesh.Agent.Events
use keelmesh.Agent.Events.{TaskEvent, events_of}
use keelmesh.Agent.Postgres.{EventCodec, EventSql, append}
use keelmesh.Agent.Postgres.Laws.{EventSqlLaws, Encodes, Shows, Agree, append-Agrees}

-- The greatest sequence number of each task, and its payloads.
abbrev Table : Type 0
Table = Map (ℕ × List String)

abbrev row_of : Table → String → ℕ × List String
row_of w id = elim (lookup id w) [ none ↦ (0, []) | some row ↦ row ]

abbrev table : EventSql Table
table = record {
  begin = λ w. none;
  commit = λ old new. (new, none);
  lock = λ w id. none;
  next_sequence = λ w id. ok ((row_of w id).0 + 1);
  insert_event =
      λ w id n event_id state payload. (insert id (n, (row_of w id).1 ++ payload ∷ []) w, none);
  select_events = λ w id after. ok ([], none);
}

table-EventSqlLaws : EventSqlLaws Table table
table-EventSqlLaws = record {
  payloads = λ w id. (row_of w id).1;
  last = λ w id. (row_of w id).0;
  next_sequence_ok = λ w id n e. ground (arith, e);
  insert_last = λ w id n event_id state payload j fine above.
      ground (arith, lookup-insert id j (n, (row_of w id).1 ++ payload ∷ []) w);
  insert_payloads = λ w id n event_id state payload j fine above. ground (
    arith,
    lookup-insert id j (n, (row_of w id).1 ++ payload ∷ []) w,
    eq_iff id j,
    λ (k : String). lookup k w,
  );
  commit_ok = λ old new fine. refl;
}

-- Encodes an event by its state.
abbrev codec : EventCodec
codec = record { marshal = λ e. ok e.state; unmarshal = λ text. err (new text) }

abbrev event : TaskEvent
event = record {
  task_id = "t1";
  event_id = "";
  sequence = 0;
  state = "running";
  content = "";
  error = "";
  progress = none;
  occurred_at = 0;
}

empty-Shows : Shows codec table-EventSqlLaws [] []
unfolding lookup events_of table-EventSqlLaws Encodes
empty-Shows = record { counted = λ id. refl; encoded = λ id. tt }

append-Agrees_example :
    Agree codec table-EventSqlLaws [] [] empty-Shows event 7
      (append codec table [] event 7)
      (Events.append [] event 7)
unfolding append
append-Agrees_example = append-Agrees codec table-EventSqlLaws [] [] empty-Shows event 7 refl
