-- ===== src/Gate/Handlers.antt =====
-- internal/application/gate/service.go: the handlers that change a task that exists, and the
-- projection of an agent's events.
use keelmesh.Prelude.{
  String, Bool, true, false, ◌||◌, not, lookup, delete, trim, blank, concat, Option, none, some, [],
  ◌∷◌, ◌==◌, if◌then◌else◌, pos, leb_ℤ, Result, ok, err, wrap,
}
use keelmesh.Gate.Types.{
  TaskRecord, audit_event, is_terminal, DispatchResponse, ProjectTaskEventRequest,
  ProjectTaskEventResponse, TaskRequest,
}
use keelmesh.Gate.Service.{
  Service, invalid_request, task_not_found, dispatch_response, transition_with_audit,
  start_execution,
}

-- The `switch` of `ProjectTaskEvent`; `none` is its default case.
unfoldable pub apply_event : ProjectTaskEventRequest → TaskRecord → Option TaskRecord
apply_event r task =
    if r.state == "running" || r.state == "queued"
    then some (record task { state = r.state })
    else if r.state == "progress"
    then some (record task { progress_state = r.progress_state; progress = r.progress_content })
    else if r.state == "final"
    then some (record task { state = "final"; result = r.content })
    else if r.state == "failed"
    then some (record task { state = "failed"; error = r.error })
    else none

-- `record.LastSequence = …; record.LastEventID = …`.
unfoldable pub mark_event : ProjectTaskEventRequest → TaskRecord → TaskRecord
mark_event r task = record task { last_sequence = r.sequence; last_event_id = r.event_id }

abbrev pub not_projected : Bool → String → TaskRecord → ProjectTaskEventResponse
not_projected duplicate reason task = record {
  applied = false;
  duplicate = duplicate;
  reason = reason;
  state = task.state;
  sequence = task.last_sequence;
}

abbrev pub projected : TaskRecord → ProjectTaskEventResponse
projected task = record {
  applied = true;
  duplicate = false;
  reason = "";
  state = task.state;
  sequence = task.last_sequence;
}

-- The reason that a cancelled task keeps as its error.
unfoldable pub cancel_reason : String → String
cancel_reason reason = if blank reason then "cancelled by operator" else trim reason

module _ {W : Type 0} where
  -- From the computed record on: the write, and the response.
  unfoldable pub persist_event :
      Service W
      → ProjectTaskEventRequest
      → TaskRecord
      → TaskRecord
      → Service W × Result ProjectTaskEventResponse
  persist_event s r task task' =
      let (w, applied, failure) =
        transition_with_audit s r.task_id task.state task' (
          audit_event r.task_id (concat ("agent_" ∷ r.state ∷ [])) task.state task'.state
            r.error) in
      let s' = record s { world = w } in
      elim failure [
        | some e ↦ (s', err (wrap "gatecore: persist projected task event: %w" [] e))
        | none ↦ (
          s',
          ok (
              if not applied
              then not_projected false "task changed during event projection" task'
              else projected task'),
        )
      ]

  unfoldable pub project_task :
      Service W → ProjectTaskEventRequest → TaskRecord → Service W × Result ProjectTaskEventResponse
  unfolding apply_event mark_event persist_event
  project_task s r task =
      if leb_ℤ r.sequence task.last_sequence || r.event_id == task.last_event_id
      then (s, ok (not_projected true "" task))
      else if is_terminal task.state
      then (s, ok (not_projected false "terminal task cannot be reopened" task))
      else elim (apply_event r task) [
        | none ↦ (s, ok (not_projected false "unsupported task event state" task))
        | some task' ↦ persist_event s r task (mark_event r task')
      ]

  unfoldable pub project_task_event :
      Service W → Option ProjectTaskEventRequest → Service W × Result ProjectTaskEventResponse
  unfolding project_task
  project_task_event s none = (s, err invalid_request)
  project_task_event s (some r) =
      if blank r.task_id || blank r.event_id || leb_ℤ r.sequence (pos 0)
      then (s, err invalid_request)
      else elim (s.tasks.get s.world r.task_id) [
        | err e ↦ (s, err (wrap "gatecore: get task for event projection: %w" [] e))
        | ok none ↦ (
          s,
          ok (record {
            applied = false;
            duplicate = false;
            reason = "gatecore: task not found";
            state = "";
            sequence = pos 0;
          }),
        )
        | ok (some task) ↦ project_task s r task
      ]

  -- The write that `ResumeTask` and `ApproveTask` end in: the task is queued again, and on success
  -- it is started.
  unfoldable pub requeue :
      Service W
      → String
      → String
      → TaskRecord
      → String
      → String
      → String
      → String
      → Service W × Result DispatchResponse
  requeue s id expected entry action reason failed changed =
      let (w, applied, failure) =
        transition_with_audit s id expected entry
          (audit_event id action expected "queued" reason) in
      let s' = record s { world = w } in
      elim failure [
        | some e ↦ (s', err (wrap failed [] e))
        | none ↦
            if not applied
            then (s', ok (dispatch_response id entry.state false changed))
            else (start_execution s' id entry, ok (dispatch_response id "queued" true ""))
      ]

  unfoldable pub resume_task : Service W → Option TaskRequest → Service W × Result DispatchResponse
  unfolding requeue
  resume_task s none = (s, err invalid_request)
  resume_task s (some r) =
      if blank r.task_id then (s, err invalid_request) else elim (s.tasks.get s.world r.task_id) [
        | err e ↦ (s, err (wrap "gatecore: get task: %w" [] e))
        | ok none ↦ (s, err task_not_found)
        | ok (some entry) ↦
            if not (entry.state == "failed")
            then (
              s,
              ok (dispatch_response r.task_id entry.state false "only failed tasks can be resumed"),
            )
            else requeue s r.task_id "failed" (record entry { state = "queued"; error = "" })
                "resumed" r.reason "gatecore: update task: %w" "task changed before resume"
      ]

  unfoldable pub approve_task : Service W → Option TaskRequest → Service W × Result DispatchResponse
  unfolding requeue
  approve_task s none = (s, err invalid_request)
  approve_task s (some r) =
      if blank r.task_id then (s, err invalid_request) else elim (s.tasks.get s.world r.task_id) [
        | err e ↦ (s, err (wrap "gatecore: get task for approval: %w" [] e))
        | ok none ↦ (s, err task_not_found)
        | ok (some entry) ↦
            if not entry.require_approval || not (entry.state == "waiting_approval")
            then (
              s,
              ok (dispatch_response r.task_id entry.state false "task is not waiting for approval"),
            )
            else requeue s r.task_id "waiting_approval"
                (record entry { approval_granted = true; state = "queued" }) "approved" r.reason
                "gatecore: persist task approval: %w" "task changed before approval"
      ]

  -- `if cancel := s.cancels[id]; cancel != nil { cancel(); delete(s.cancels, id) }`.
  unfoldable pub cancel_context : Service W → String → Service W
  cancel_context s id = elim (lookup id s.cancels) [
    | none ↦ s
    | some context ↦ record s { cancelled = context ∷ s.cancelled; cancels = delete id s.cancels }
  ]

  unfoldable pub cancel_entry :
      Service W → TaskRequest → TaskRecord → Service W × Result DispatchResponse
  unfolding cancel_reason cancel_context
  cancel_entry s r entry =
      let entry' = record entry { state = "cancelled"; error = cancel_reason r.reason } in
      let (w, applied, failure) =
        transition_with_audit s r.task_id entry.state entry'
          (audit_event r.task_id "cancelled" entry.state "cancelled" entry'.error) in
      let s' = record s { world = w } in
      elim failure [
        | some e ↦ (s', err (wrap "gatecore: persist task cancellation: %w" [] e))
        | none ↦
            if not applied
            then (
              s',
              ok (
                  dispatch_response r.task_id entry'.state false
                    "task changed before cancellation"),
            )
            else (cancel_context s' r.task_id, ok (dispatch_response r.task_id "cancelled" true ""))
      ]

  unfoldable pub cancel_task : Service W → Option TaskRequest → Service W × Result DispatchResponse
  unfolding cancel_entry
  cancel_task s none = (s, err invalid_request)
  cancel_task s (some r) =
      if blank r.task_id then (s, err invalid_request) else elim (s.tasks.get s.world r.task_id) [
        | err e ↦ (s, err (wrap "gatecore: get task for cancellation: %w" [] e))
        | ok none ↦ (s, err task_not_found)
        | ok (some entry) ↦
            if is_terminal entry.state
            then (s, ok (dispatch_response r.task_id entry.state false "task is terminal"))
            else cancel_entry s r entry
      ]
