-- ===== src/Gate/Refinement/Handlers.antt =====
-- The handlers of internal/application/gate/service.go that change a task that exists, as steps of
-- `Change`.
use keelmesh.Prelude.{
  String, true, false, not, ◌||◌, ◌≡◌, refl, sym, lookup, blank, concat, Option, none, some, [],
  ◌∷◌, arith, ◌==◌, if_cases, eq_iff, pos, leb_ℤ, subst, option_cases,
}
use keelmesh.Gate.Types.{TaskRecord, audit_event, is_terminal, TaskRequest, ProjectTaskEventRequest}
use keelmesh.Gate.Service.{Service, transition_with_audit, start_execution}
use keelmesh.Gate.Handlers.{
  apply_event, mark_event, persist_event, project_task, project_task_event, requeue, resume_task,
  approve_task, cancel_reason, cancel_context, cancel_entry, cancel_task,
}
use keelmesh.Gate.Shared.{Shared, IsShared, get-shared}
use keelmesh.Gate.Changes.{Allowed, Change}
use keelmesh.Gate.Refinement.{Refines, transition-Change, get_cases}

approves :
    (task : TaskRecord)
    → (not task.require_approval || not (task.state == "waiting_approval")) ≡ false
    → Allowed task (record task { approval_granted = true; state = "queued" })
approves task waiting =
    Allowed.approved (ground arith) ((eq_iff task.state "waiting_approval").0 (ground arith)) refl

projects :
    (r : ProjectTaskEventRequest) (task mid : TaskRecord)
    → (leb_ℤ r.sequence task.last_sequence || r.event_id == task.last_event_id) ≡ false
    → is_terminal task.state ≡ false
    → apply_event r task ≡ some mid
    → Allowed task (mark_event r mid)
projects r task mid fresh live applied = Allowed.projected r mid (ground arith) live applied refl

world-requeue :
    (s : Service Shared) (id expected : String) (entry : TaskRecord)
    (action reason failed changed : String)
    → (requeue s id expected entry action reason failed changed).0.world
      ≡ (transition_with_audit s id expected entry
          (audit_event id action expected "queued" reason)).0
unfolding requeue start_execution
world-requeue s id expected entry action reason failed changed = ground arith

module _ (s : Service Shared) (shared : IsShared s) where
  requeue-Change :
      (id expected action reason failed changed : String) (read entry : TaskRecord)
      → entry.state ≡ "queued"
      → lookup id s.world.view ≡ some read
      → read.state ≡ expected
      → Allowed read entry
      → Change s.world (requeue s id expected entry action reason failed changed).0.world
  requeue-Change id expected action reason failed changed read entry queued seen from allowed =
      subst (Change s.world) (sym (world-requeue s id expected entry action reason failed changed))
        (rw (← queued)
          (transition-Change s shared id action reason expected read entry seen from allowed))

  pub resume_task-Change : (r : Option TaskRequest) → Change s.world (resume_task s r).0.world
  unfolding resume_task
  resume_task-Change none = Change.keep refl
  resume_task-Change (some r) =
      if_cases (Refines s) (blank r.task_id) (λ _. Change.keep refl)
        λ _.
          get_cases (Refines s) _ _ _ (get-shared s shared r.task_id) (λ _. Change.keep refl)
            λ task found.
              if_cases (Refines s) (not (task.state == "failed")) (λ _. Change.keep refl)
                λ failed.
                  let from = (eq_iff task.state "failed").0 (ground (arith, failed)) in
                  requeue-Change r.task_id "failed" "resumed" r.reason _ _ task _ refl found from
                    (Allowed.resumed from refl)

  pub approve_task-Change : (r : Option TaskRequest) → Change s.world (approve_task s r).0.world
  unfolding approve_task
  approve_task-Change none = Change.keep refl
  approve_task-Change (some r) =
      if_cases (Refines s) (blank r.task_id) (λ _. Change.keep refl)
        λ _.
          get_cases (Refines s) _ _ _ (get-shared s shared r.task_id) (λ _. Change.keep refl)
            λ task found.
              if_cases (Refines s)
                (not task.require_approval || not (task.state == "waiting_approval"))
                (λ _. Change.keep refl)
                λ waiting.
                  requeue-Change r.task_id "waiting_approval" "approved" r.reason _ _ task _ refl
                    found ((eq_iff task.state "waiting_approval").0 (ground (arith, waiting)))
                    (approves task waiting)

  world-cancel_entry :
      (r : TaskRequest) (entry : TaskRecord)
      → (cancel_entry s r entry).0.world
        ≡ (transition_with_audit s r.task_id entry.state
            (record entry { state = "cancelled"; error = cancel_reason r.reason })
            (audit_event r.task_id "cancelled" entry.state "cancelled" (cancel_reason r.reason))).0
  unfolding cancel_entry cancel_context
  world-cancel_entry r entry = ground arith

  pub cancel_task-Change : (r : Option TaskRequest) → Change s.world (cancel_task s r).0.world
  unfolding cancel_task
  cancel_task-Change none = Change.keep refl
  cancel_task-Change (some r) =
      if_cases (Refines s) (blank r.task_id) (λ _. Change.keep refl)
        λ _.
          get_cases (Refines s) _ _ _ (get-shared s shared r.task_id) (λ _. Change.keep refl)
            λ task found.
              if_cases (Refines s) (is_terminal task.state) (λ _. Change.keep refl)
                λ live. subst (Change s.world) (sym (world-cancel_entry r task)) (
                  transition-Change s shared r.task_id "cancelled" (cancel_reason r.reason)
                    task.state task
                    (record task { state = "cancelled"; error = cancel_reason r.reason }) found refl
                    (Allowed.cancelled (cancel_reason r.reason) live refl))

  world-persist_event :
      (r : ProjectTaskEventRequest) (task task' : TaskRecord)
      → (persist_event s r task task').0.world
        ≡ (transition_with_audit s r.task_id task.state task' (
            audit_event r.task_id
              (concat ("agent_" ∷ r.state ∷ []))
              task.state
              task'.state
              r.error)).0
  unfolding persist_event
  world-persist_event r task task' = ground arith

  project_task-Change :
      (r : ProjectTaskEventRequest) (task : TaskRecord)
      → lookup r.task_id s.world.view ≡ some task
      → Change s.world (project_task s r task).0.world
  unfolding project_task
  project_task-Change r task found =
      if_cases (Refines s) (leb_ℤ r.sequence task.last_sequence || r.event_id == task.last_event_id)
        (λ _. Change.keep refl)
        λ fresh.
          if_cases (Refines s) (is_terminal task.state) (λ _. Change.keep refl)
            λ live.
              option_cases (Refines s) (apply_event r task) (λ _. Change.keep refl)
                λ mid applied.
                  subst (Change s.world) (sym (world-persist_event r task (mark_event r mid))) (
                    transition-Change s shared r.task_id _ r.error task.state task
                      (mark_event r mid) found refl (projects r task mid fresh live applied))

  pub project_task_event-Change :
      (r : Option ProjectTaskEventRequest) → Change s.world (project_task_event s r).0.world
  unfolding project_task_event
  project_task_event-Change none = Change.keep refl
  project_task_event-Change (some r) =
      if_cases (Refines s) (blank r.task_id || blank r.event_id || leb_ℤ r.sequence (pos 0))
        (λ _. Change.keep refl)
        λ _.
          get_cases (Refines s) _ _ _ (get-shared s shared r.task_id) (λ _. Change.keep refl)
            λ task found. project_task-Change r task found
