-- ===== src/Agent/Postgres.antt =====
-- internal/application/agent/events.go: the event store on a database. As in Gate/Postgres, a
-- transaction works on a copy of the database's contents `W`, and a statement is a field of a record.
pub mod Laws
use keelmesh.Prelude.{
  ℕ, String, Option, none, some, List, [], ◌∷◌, Result, ok, err, Error, wrap, ◌>>=◌,
}
use keelmesh.Agent.Events.{TaskEvent, number}

-- `json.Marshal` and `json.Unmarshal` of an event.
pub record EventCodec : Type 0 where
  pub marshal : TaskEvent → Result String
  pub unmarshal : String → Result TaskEvent

-- The statements of the file; `insert_event` takes the task, the sequence number, the event's id, its
-- state and the payload. A listing answers its scanned rows and the error of `rows.Err`.
pub record EventSql (W : Type 0) : Type 0 where
  pub begin : W → Option Error
  pub commit : W → W → W × Option Error
  pub lock : W → String → Option Error
  pub next_sequence : W → String → Result ℕ
  pub insert_event : W → String → ℕ → String → String → String → W × Option Error
  pub select_events : W → String → ℕ → Result (List (Result String) × Option Error)

module _ {W : Type 0} (codec : EventCodec) (sql : EventSql W) where
  -- `Append` once the event is numbered: the contents, and the error.
  unfoldable pub insert_numbered : W → TaskEvent → W × Option Error
  insert_numbered w e = elim (codec.marshal e) [
    | err x ↦ (w, some (wrap "agentcore: encode task event: %w" [] x))
    | ok payload ↦
        let (tx, failure) = sql.insert_event w e.task_id e.sequence e.event_id e.state payload in
        elim failure [
          | some x ↦ (w, some (wrap "agentcore: append task event: %w" [] x))
          | none ↦
              let (w', failure') = sql.commit w tx in
              elim failure' [
                | some x ↦ (w', some (wrap "agentcore: commit task event: %w" [] x))
                | none ↦ (w', none)
              ]
        ]
  ]

  -- `Append`, with the event as it leaves it, which the caller goes on with.
  unfoldable pub append : W → TaskEvent → ℕ → W × TaskEvent × Option Error
  unfolding insert_numbered number
  append w e now = elim (sql.begin w) [
    | some x ↦ (w, e, some (wrap "agentcore: begin event transaction: %w" [] x))
    | none ↦ elim (sql.lock w e.task_id) [
      | some x ↦ (w, e, some (wrap "agentcore: lock task event sequence: %w" [] x))
      | none ↦ elim (sql.next_sequence w e.task_id) [
        | err x ↦ (w, e, some (wrap "agentcore: allocate task event sequence: %w" [] x))
        | ok sequence ↦
            let e' = number e sequence now in
            let (w', failure) = insert_numbered w e' in (w', e', failure)
      ]
    ]
  ]

  -- The loop of `List` over the rows.
  unfoldable pub scan_events : List (Result String) → Option Error → Result (List TaskEvent)
  scan_events [] none = ok []
  scan_events [] (some x) = err (wrap "agentcore: iterate task events: %w" [] x)
  scan_events (err x ∷ rest) failure = err (wrap "agentcore: scan task event: %w" [] x)
  scan_events (ok payload ∷ rest) failure =
      let more = scan_events rest failure in
      elim (codec.unmarshal payload) [
        | err x ↦ err (wrap "agentcore: decode task event: %w" [] x)
        | ok e ↦ more >>= λ events. ok (e ∷ events)
      ]

  unfoldable pub list : W → String → ℕ → Result (List TaskEvent)
  unfolding scan_events
  list w id after = elim (sql.select_events w id after) [
    | err x ↦ err (wrap "agentcore: list task events: %w" [] x)
    | ok (rows, failure) ↦ scan_events rows failure
  ]
