-- ===== src/Gate/Postgres/Atomic.antt =====
-- internal/application/gate/postgres_repository.go: an audited transition is all or nothing.
use keelmesh.Prelude.{
  ℕ, String, Bool, false, not, ◌≡◌, sym, ap, ◌⊎◌, inl, inr, refl, Option, none, some, ◌==◌,
  if_cases, option_cases, result_cases, read_cases, [], ok, Error,
}
use keelmesh.Gate.Types.{TaskRecord, AuditEvent}
use keelmesh.Gate.Postgres.{
  Row, insert_audit_tx, enqueue_in_tx, dated, Codec, Sql, row_of, wrapped, answered, finish_tx,
  write_transition, transition_locked, transition_and_audit,
}
use keelmesh.Gate.Postgres.Laws.{SqlLaws, HasColumns, row_of-HasColumns}
use keelmesh.Gate.Postgres.Written.{and_then_ok, wrapped_done}

module _ {W : Type 0} (codec : Codec) (sql : Sql W) (laws : SqlLaws W sql) (uuid : String) (now : ℕ)
    (w : W) (id expected : String) (task : TaskRecord) (event : AuditEvent)
    (enqueue : Option (W → W × Option Error)) where
  -- The delivery, where there is one, was put into the outbox without an error.
  abbrev pub IsQueued : Option (W → W × Option Error) → W → W → Type 0
  IsQueued none audited tx = tx ≡ audited
  IsQueued (some put) audited tx = put audited ≡ (tx, none)

  -- The contents after the update of the task's row to the columns of the record, the insert of the
  -- event and the enqueue of the delivery, each of which succeeded.
  abbrev pub IsComplete : W → Type 0
  IsComplete tx =
      (text : String) × (codec.marshal task.metadata ≡ ok text)
      × (row : Row) × HasColumns row text task
      × (updated : W) × (sql.update_task w id row ≡ (updated, none))
      × (audited : W) × (sql.insert_audit updated (dated uuid now event) ≡ (audited, none))
      × IsQueued enqueue audited tx

  -- Nothing was written, or all of it.
  abbrev pub AllOrNothing : W × Bool × Option Error → Type 0
  AllOrNothing res = (res.1 ≡ false) × (res.0 ≡ w) ⊎ (tx : W) × IsComplete tx × (res.0 ≡ tx)

  enqueue_in_tx-IsQueued :
      (put : Option (W → W × Option Error)) (audited tx : W)
      → enqueue_in_tx codec sql uuid now put audited ≡ (tx, none)
      → IsQueued put audited tx
  enqueue_in_tx-IsQueued none audited tx e = sym (ap (λ r. r.0) e)
  enqueue_in_tx-IsQueued (some put) audited tx e =
      wrapped_done "gatecore: enqueue transition delivery: %w" [] (put audited) tx e

  write_transition-IsComplete :
      (text : String) (tx : W)
      → codec.marshal task.metadata ≡ ok text
      → write_transition codec sql uuid now w id (row_of text task) event enqueue ≡ (tx, none)
      → IsComplete tx
  unfolding write_transition insert_audit_tx
  write_transition-IsComplete text tx encoded e =
      let row = row_of text task in
      let (audited, first, last) = and_then_ok _ (enqueue_in_tx codec sql uuid now enqueue) tx e in
      let (updated, one, two) =
        and_then_ok (wrapped "gatecore: write audited transition: %w" [] (sql.update_task w id row))
          _ audited first in
      (
        text,
        encoded,
        row,
        row_of-HasColumns text task,
        updated,
        wrapped_done "gatecore: write audited transition: %w" [] (sql.update_task w id row) updated
            one,
        audited,
        wrapped_done "gatecore: insert audit in task transaction: %w" []
            (sql.insert_audit updated (dated uuid now event)) audited two,
        enqueue_in_tx-IsQueued enqueue audited tx last,
      )

  module _ (text : String) (encoded : codec.marshal task.metadata ≡ ok text) where
    committed :
        (tx : W) (commit_text : String) (res : W × Option Error)
        → IsComplete tx
        → (res.1 ≡ none → res.0 ≡ tx)
        → (res.0 ≡ w) ⊎ (res.0 ≡ tx)
        → AllOrNothing (answered (wrapped commit_text [] res))
    committed tx commit_text (w', none) complete done either = inr (tx, complete, done refl)
    committed tx commit_text (w', some e) complete done (inl old) = inl (refl, old)
    committed tx commit_text (w', some e) complete done (inr new) = inr (tx, complete, new)

    finish-AllOrNothing :
        (tx : W × Option Error) (commit_text : String)
        → write_transition codec sql uuid now w id (row_of text task) event enqueue ≡ tx
        → AllOrNothing (answered (finish_tx codec sql uuid now w tx commit_text))
    finish-AllOrNothing (tx, some e) commit_text wrote = inl (refl, refl)
    finish-AllOrNothing (tx, none) commit_text wrote =
        committed tx commit_text (sql.commit w tx)
          (write_transition-IsComplete text tx encoded wrote) (laws.commit_ok w tx)
          (laws.commit_failed w tx)

    transition_locked-AllOrNothing :
        AllOrNothing
          (transition_locked codec sql uuid now w id expected (row_of text task) event enqueue)
    unfolding transition_locked
    transition_locked-AllOrNothing =
        read_cases AllOrNothing (sql.select_state w id) (λ _ _. inl (refl, refl))
          (λ _. inl (refl, refl))
          λ state _.
            if_cases AllOrNothing (not (state == expected)) (λ _. inl (refl, refl))
              λ _. finish-AllOrNothing _ "gatecore: commit audited transition: %w" refl

  -- Where the statements have their documented effect, an audited transition of the Postgres repository
  -- either writes nothing, and then reports that it was not applied, or it leaves what comes of the
  -- update of the row to the columns of the record, the insert of the audit event and, where there is
  -- a delivery, its enqueue, each of which succeeded. A commit that reports an error may have done either.
  pub transition_and_audit-AllOrNothing :
      AllOrNothing (transition_and_audit codec sql uuid now w id expected task event enqueue)
  unfolding transition_and_audit
  transition_and_audit-AllOrNothing =
      result_cases AllOrNothing (codec.marshal task.metadata) (λ _ _. inl (refl, refl))
        λ text encoded.
          option_cases AllOrNothing (sql.begin w)
            (λ _.
              option_cases AllOrNothing (sql.lock w id)
                (λ _. transition_locked-AllOrNothing text encoded) λ _ _. inl (refl, refl))
            λ _ _. inl (refl, refl)
