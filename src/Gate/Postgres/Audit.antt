-- ===== src/Gate/Postgres/Audit.antt =====
-- internal/application/gate/audit.go: PostgresAuditStore, with its statements as parameters over the
-- contents `W` of the database.
use keelmesh.Prelude.{
  String, Option, none, some, List, [], ◌∷◌, ◌==◌, if◌then◌else◌, ℤ, pos, pos_part, ℕ, ltb_ℤ,
  Result, ok, err, Error, wrap, ◌>>=◌,
}
use keelmesh.Gate.Types.{AuditEvent}
use keelmesh.Gate.Postgres.{wrapped}

-- `insert_event` takes the event with its date as it is; `select_events` takes the `LIMIT`, if there is
-- one, counts from the oldest event, and scans events without their task's id.
pub record AuditSql (W : Type 0) : Type 0 where
  pub insert_event : W → AuditEvent → W × Option Error
  pub select_events : W → String → Option ℕ → Result (List (Result AuditEvent) × Option Error)

-- The loop of `List` over the rows.
unfoldable pub scan_audit :
    String → List (Result AuditEvent) → Option Error → Result (List AuditEvent)
scan_audit id [] none = ok []
scan_audit id [] (some e) = err (wrap "gatecore: iterate audit events: %w" [] e)
scan_audit id (err e ∷ rest) failure = err (wrap "gatecore: scan audit event: %w" [] e)
scan_audit id (ok event ∷ rest) failure =
    scan_audit id rest failure >>= λ events. ok (record event { task_id = id } ∷ events)

module _ {W : Type 0} (sql : AuditSql W) where
  unfoldable pub append : String → W → AuditEvent → W × Option Error
  append uuid w event =
      wrapped "gatecore: append audit event: %w" []
        (sql.insert_event w (record event { id = if event.id == "" then uuid else event.id }))

  unfoldable pub list : W → String → ℤ → Result (List AuditEvent)
  unfolding scan_audit
  list w id limit =
      elim (sql.select_events w id (if ltb_ℤ (pos 0) limit then some (pos_part limit) else none)) [
        | err e ↦ err (wrap "gatecore: list audit events: %w" [] e)
        | ok (rows, failure) ↦ scan_audit id rows failure
      ]
