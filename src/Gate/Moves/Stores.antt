-- ===== src/Gate/Moves/Stores.antt =====
-- No operation of internal/application/gate/service.go replaces the stores of its service.
use keelmesh.Prelude.{
  String, ◌≡◌, refl, Option, none, some, arith, Error, pos, leb_ℤ, ◌||◌, ◌==◌, blank, if_cases,
  option_cases, read_cases, lookup,
}
use keelmesh.Gate.Types.{TaskRecord, ProjectTaskEventRequest, is_terminal}
use keelmesh.Gate.Memory.{Outside}
use keelmesh.Gate.Service.{Service, start_execution}
use keelmesh.Gate.Handlers.{
  project_task_event, project_task, persist_event, apply_event, mark_event, resume_task,
  approve_task, cancel_task, cancel_context,
}
use keelmesh.Gate.Admission.{ingest_inbound, dispatch_task, recover_entry}
use keelmesh.Gate.Execution.{begin, persist_progress, finish}
use keelmesh.Gate.Shared.{Shared, IsShared}
use keelmesh.Gate.Moves.{
  Call, projects, resumes, approves, cancels, recovers, begins, finishes, Move, ingests, dispatches,
  calls, reports, appends, System, recover, call, move,
}

abbrev SameStores : Service Shared → Service Shared → Type 0
SameStores s s' = (s'.tasks ≡ s.tasks) × (s'.audit ≡ s.audit)

start_execution-SameStores :
    (s : Service Shared) (id : String) (t : TaskRecord) → SameStores s (start_execution s id t)
unfolding start_execution
start_execution-SameStores s id t = ground arith

persist_event-SameStores :
    (s : Service Shared) (r : ProjectTaskEventRequest) (old new : TaskRecord)
    → SameStores s (persist_event s r old new).0
unfolding persist_event
persist_event-SameStores s r old new = ground arith

abbrev Keeps {ℓ} : {R : Type ℓ} → Service Shared → Service Shared × R → Type 0
Keeps s res = SameStores s res.0

project_task-SameStores :
    (s : Service Shared) (r : ProjectTaskEventRequest) (task : TaskRecord)
    → SameStores s (project_task s r task).0
unfolding project_task
project_task-SameStores s r task =
    if_cases (Keeps s) (leb_ℤ r.sequence task.last_sequence || r.event_id == task.last_event_id)
      (λ _. (refl, refl))
      λ _.
        if_cases (Keeps s) (is_terminal task.state) (λ _. (refl, refl))
          λ _.
            option_cases (Keeps s) (apply_event r task) (λ _. (refl, refl))
              λ new _. persist_event-SameStores s r task (mark_event r new)

project_task_event-SameStores :
    (s : Service Shared) (r : Option ProjectTaskEventRequest)
    → SameStores s (project_task_event s r).0
unfolding project_task_event
project_task_event-SameStores s none = (refl, refl)
project_task_event-SameStores s (some r) =
    if_cases (Keeps s) (blank r.task_id || blank r.event_id || leb_ℤ r.sequence (pos 0))
      (λ _. (refl, refl))
      λ _.
        read_cases (Keeps s) (s.tasks.get s.world r.task_id) (λ _ _. (refl, refl))
          (λ _. (refl, refl)) λ task _. project_task-SameStores s r task

recover_entry-SameStores :
    (s : Service Shared) (id : String) (task : TaskRecord)
    → SameStores s (recover_entry s (record { id = id; task = task })).0
unfolding recover_entry start_execution
recover_entry-SameStores s id task = ground arith

recover-SameStores : (s : Service Shared) (id : String) → SameStores s (recover s id)
unfolding recover
recover-SameStores s id =
    option_cases (SameStores s) (lookup id s.world.view) (λ _. (refl, refl))
      λ task _.
        if_cases (SameStores s) (task.state == "queued" || task.state == "running")
          (λ _. recover_entry-SameStores s id task) λ _. (refl, refl)

module _ (render : Error → String) (o : Outside) where
  call-SameStores : (s : Service Shared) (c : Call) → SameStores s (call render o s c)
  unfolding call resume_task approve_task cancel_task cancel_context begin finish start_execution
  call-SameStores s (projects r) = project_task_event-SameStores s r
  call-SameStores s (resumes none) = (refl, refl)
  call-SameStores s (resumes (some r)) = ground arith
  call-SameStores s (approves none) = (refl, refl)
  call-SameStores s (approves (some r)) = ground arith
  call-SameStores s (cancels none) = (refl, refl)
  call-SameStores s (cancels (some r)) = ground arith
  call-SameStores s (recovers id) = recover-SameStores s id
  call-SameStores s (begins l) = ground arith
  call-SameStores s (finishes l task answer q) = ground arith

  move-SameStores : (sys : System) (m : Move) → SameStores sys.service (move render o sys m)
  unfolding move ingest_inbound dispatch_task persist_progress start_execution
  move-SameStores sys (ingests none) = (refl, refl)
  move-SameStores sys (ingests (some r)) = ground arith
  move-SameStores sys (dispatches none) = (refl, refl)
  move-SameStores sys (dispatches (some r)) = ground arith
  move-SameStores sys (calls n c) = call-SameStores _ c
  move-SameStores sys (reports n task state content d q) = ground arith
  move-SameStores sys (appends n) = (refl, refl)

  pub move-IsShared :
      (sys : System) (m : Move) → IsShared sys.service → IsShared (move render o sys m)
  move-IsShared sys m shared = let same = move-SameStores sys m in ground arith
