-- ===== src/Gate/Moves.antt =====
-- Runs of the service of `New()` (internal/application/gate/service.go) in which its operations
-- interleave: a handler, or a part of a goroutine of `execute`, reads a task at one point, writes it
-- at a later one, and its audit event is appended later still.
pub mod Stores
pub mod Kept
use keelmesh.Prelude.{
  ℕ, suc, String, ◌||◌, ◌==◌, ◌≡◌, if◌then◌else◌, Map, lookup, Option, none, some, List, [], ◌∷◌,
  get_elem?, Result, Error,
}
use keelmesh.Gate.Types.{
  TaskRecord, Task, ExecutionResult, ProjectTaskEventRequest, TaskRequest, IngestInboundRequest,
  DispatchTaskRequest,
}
use keelmesh.Gate.Store.{OutboundDispatcher}
use keelmesh.Gate.Memory.{Outside}
use keelmesh.Gate.Service.{Service, Launch}
use keelmesh.Gate.Handlers.{project_task_event, resume_task, approve_task, cancel_task}
use keelmesh.Gate.Admission.{ingest_inbound, dispatch_task, recover_entry}
use keelmesh.Gate.Execution.{begin, persist_progress, finish}
use keelmesh.Gate.Shared.{Shared, append_pending}
use keelmesh.Gate.Refinement.Execution.{IsQuiet}

-- An operation that reads a task and then replaces it by a transition: a handler, a round of
-- `RecoverPending` for a task, the part of `execute` before the executor, and the part after it.
pub data Call : Type 0 where
  projects : Option ProjectTaskEventRequest → Call
  resumes approves cancels : Option TaskRequest → Call
  recovers : String → Call
  begins : Launch Shared → Call
  finishes :
      (l : Launch Shared) (task : Task) (answer : Result ExecutionResult)
      → IsQuiet l.dispatcher
      → Call

-- What happens to the stores. A call or a progress report names what its read met: the contents
-- before so many writes. An admission holds the service's lock from its read to its write, and only
-- admissions create tasks. An append takes one of the pending events.
pub data Move : Type 0 where
  ingests : Option IngestInboundRequest → Move
  dispatches : Option DispatchTaskRequest → Move
  calls : ℕ → Call → Move
  reports :
      ℕ
      → (task : Task) (state content : String) (d : Option (OutboundDispatcher Shared)) → IsQuiet d
      → Move
  appends : ℕ → Move

-- The service, and the earlier contents of its task store, latest first.
pub record System : Type 0 where
  pub service : Service Shared
  pub past : List (Map TaskRecord)

abbrev pub tasks_of : System → Map TaskRecord
tasks_of sys = sys.service.world.memory.tasks

-- The contents before the n last moves.
unfoldable pub seen : System → ℕ → Map TaskRecord
seen sys n = elim (get_elem? (tasks_of sys ∷ sys.past) n) [ none ↦ tasks_of sys | some v ↦ v ]

abbrev pub with_view : Service Shared → Map TaskRecord → Service Shared
with_view s view = record s { world = record s.world { view = view } }

-- The task as it was listed.
unfoldable pub recover : Service Shared → String → Service Shared
recover s id = elim (lookup id s.world.view) [
  | none ↦ s
  | some task ↦
      if task.state == "queued" || task.state == "running"
      then (recover_entry s (record { id = id; task = task })).0
      else s
]

module _ (render : Error → String) (o : Outside) where
  unfoldable pub call : Service Shared → Call → Service Shared
  unfolding recover
  call s (projects r) = (project_task_event s r).0
  call s (resumes r) = (resume_task s r).0
  call s (approves r) = (approve_task s r).0
  call s (cancels r) = (cancel_task s r).0
  call s (recovers id) = recover s id
  call s (begins l) = (begin s l).0
  call s (finishes l task answer q) = finish render s l task answer

  unfoldable pub move : System → Move → Service Shared
  unfolding call seen
  move sys (ingests r) = (ingest_inbound render (with_view sys.service (tasks_of sys)) r).0
  move sys (dispatches r) = (dispatch_task render (with_view sys.service (tasks_of sys)) r).0
  move sys (calls n c) = call (with_view sys.service (seen sys n)) c
  move sys (reports n task state content d q) =
      (persist_progress (with_view sys.service (seen sys n)) task state content d).0
  move sys (appends n) = record sys.service { world = append_pending o sys.service.world n }

  unfoldable pub step : System → Move → System
  unfolding move
  step sys m = record { service = move sys m; past = tasks_of sys ∷ sys.past }

  unfoldable pub run : System → List Move → System
  unfolding step
  run sys [] = sys
  run sys (m ∷ ms) = run (step sys m) ms

-- Nothing came between the read and the write of a progress report.
abbrev pub IsUndisturbed : Move → Type 0
IsUndisturbed (reports n task state content d q) = n ≡ 0
IsUndisturbed _ = Unit {0}
