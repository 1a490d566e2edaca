-- ===== src/Gate/Changes.antt =====
-- What a call may do to the stored tasks and the audit trail of a service of `New()`
-- (internal/application/gate/service.go), between other calls: an abstract step that every handler and
-- every part of `execute` refines.
use keelmesh.Prelude.{String, true, false, not, ◌&&◌, ◌≡◌, lookup, none, some, ◌==◌, leb_ℤ, ◌⊎◌}
use keelmesh.Gate.Types.{TaskRecord, audit_event, is_terminal, ProjectTaskEventRequest}
use keelmesh.Gate.Handlers.{apply_event, mark_event}
use keelmesh.Gate.Execution.{next_attempt, attempts_exceeded}
use keelmesh.Gate.Shared.{Shared, stored, posted}

-- Which replacement of a record an audited action makes, and in which states.
pub data Allowed (old new : TaskRecord) : Type 0 where
  started :
      old.state ≡ "queued"
      → new ≡ next_attempt old
      → attempts_exceeded new ≡ false
      → Allowed old new
  exhausted :
      old.state ≡ "queued"
      → attempts_exceeded (next_attempt old) ≡ true
      → new ≡ record (next_attempt old) { state = "failed"; error = "maximum attempts exceeded" }
      → Allowed old new
  resumed :
      old.state ≡ "failed" → new ≡ record old { state = "queued"; error = "" } → Allowed old new
  approved :
      old.require_approval ≡ true
      → old.state ≡ "waiting_approval"
      → new ≡ record old { approval_granted = true; state = "queued" }
      → Allowed old new
  cancelled :
      (error : String)
      → is_terminal old.state ≡ false
      → new ≡ record old { state = "cancelled"; error = error }
      → Allowed old new
  recovered :
      (old.require_approval && not old.approval_granted) ≡ false
      → (old.state ≡ "queued") ⊎ (old.state ≡ "running")
      → new ≡ record old { state = "queued" }
      → Allowed old new
  projected :
      (r : ProjectTaskEventRequest) (mid : TaskRecord)
      → leb_ℤ r.sequence old.last_sequence ≡ false
      → is_terminal old.state ≡ false
      → apply_event r old ≡ some mid
      → new ≡ mark_event r mid
      → Allowed old new
  finished :
      (result : String)
      → (old.state == "cancelled") ≡ false
      → new ≡ record old { state = "final"; result = result }
      → Allowed old new
  broken :
      (error : String)
      → (old.state == "cancelled") ≡ false
      → new ≡ record old { state = "failed"; error = error }
      → Allowed old new

-- One step of the stored world: nothing, a new task, or an audited replacement. What is written comes
-- of the record that was read; a replacement meets a record in the same state.
pub data Change (w w' : Shared) : Type 0 where
  keep : w' ≡ w → Change w w'
  create :
      (id : String) (task : TaskRecord)
      → lookup id w.memory.tasks ≡ none
      → w' ≡ posted (stored w id task) (audit_event id "created" "" task.state "")
      → Change w w'
  move :
      (id action reason : String) (read old new : TaskRecord)
      → lookup id w.view ≡ some read
      → lookup id w.memory.tasks ≡ some old
      → old.state ≡ read.state
      → Allowed read new
      → w' ≡ posted (stored w id new) (audit_event id action read.state new.state reason)
      → Change w w'

-- One progress report: nothing, or the record that was read with its progress, whatever is stored.
pub data Note (w w' : Shared) : Type 0 where
  skip : w' ≡ w → Note w w'
  note :
      (id state content : String) (read : TaskRecord)
      → lookup id w.view ≡ some read
      → is_terminal read.state ≡ false
      → w' ≡ stored w id (record read { progress_state = state; progress = content })
      → Note w w'
