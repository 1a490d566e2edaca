-- ===== src/Tests/Gate.antt =====
-- The theorems on internal/application/gate at concrete inputs.
use keelmesh.Prelude.{
  ◌⊎◌, Bool, count, All, String, true, inc_64, blank, if◌then◌else◌, ◌≡◌, ◌↔◌, refl, List, lookup,
  trim, insert, none, some, [], ◌∷◌, pos, pos_part, ◌≤ℤ◌, ok, Error, false,
}
use keelmesh.Gate.Types.{
  TaskRecord, Task, TaskOptions, AuditEvent, TaskRequest, DispatchTaskRequest,
  AuthorizeOutboundRequest, is_terminal,
}
use keelmesh.Gate.Memory.{Outside, Memory, repository, transition, append, put}
use keelmesh.Gate.Service.{Service, Launch, with_result, dispatch_response, transition_with_audit}
use keelmesh.Gate.Handlers.{cancel_task}
use keelmesh.Gate.Admission.{authorize_outbound, authorization, accept}
use keelmesh.Gate.Execution.{begin, persist_progress}
use keelmesh.Gate.Local.{IsLocal, local_service}
use keelmesh.Gate.Invariants.{SameTask, leads, state_of, recorded}
use keelmesh.Gate.Shared.{Shared, shared_service, IsShared, shared_repository, post}
use keelmesh.Gate.Moves.{
  begins, finishes, cancels, Move, dispatches, calls, reports, appends, System, tasks_of, run,
  IsUndisturbed,
}
use keelmesh.Gate.System.{fresh_system, run-IsAudited, run-cancelled, run-SameTask}
use keelmesh.Gate.Guarantees.{
  also, Authorized, authorize_outbound_iff, accept-accept, begin-within_limit, cancel_task-accepted,
}

abbrev pub outside : Outside
outside = record { uuid = λ n. "id"; time = λ n. n }

abbrev pub text_of : Error → String
text_of e = "failed"

abbrev options : TaskOptions
options = record { require_approval = false; max_attempts = pos 2; max_wall_time_ms = pos 0 }

abbrev pub task_in : String → TaskRecord
task_in state = record {
  channel_id = "ops";
  target_id = "room";
  content = "check";
  metadata = [];
  error = "";
  result = "";
  progress = "";
  progress_state = "";
  state = state;
  last_sequence = pos 0;
  last_event_id = "";
  attempt = pos 0;
  max_attempts = pos 2;
  max_wall_time_ms = pos 0;
  require_approval = false;
  approval_granted = false;
}

abbrev pub service_in : String → Service Memory
service_in state = record (local_service outside) {
  world = record { tasks = ("t1", task_in state) ∷ []; events = []; appended = 0 };
}

service_in-IsLocal : (state : String) → IsLocal outside (service_in state)
unfolding local_service
service_in-IsLocal state = record { tasks = refl; audit = refl }

abbrev dispatch : DispatchTaskRequest
dispatch = record {
  task_id = "t1";
  channel_id = "ops";
  target_id = "room";
  content = "check";
  metadata = [];
  require_approval = false;
  max_attempts = pos 2;
  max_wall_time_ms = pos 0;
}

abbrev launch : Launch Memory
launch = record {
  task_id = "t1";
  entry = task_in "queued";
  context = 0;
  executor = with_result;
  dispatcher = none;
}

abbrev task : Task
task = record {
  id = "t1";
  channel_id = "ops";
  target_id = "room";
  content = "check";
  metadata = [];
  event_sequence = pos 0;
}

abbrev cancellation : TaskRequest
cancellation = record { task_id = "t1"; reason = " stop " }

abbrev shared_launch : Launch Shared
shared_launch = record {
  task_id = "t1";
  entry = task_in "queued";
  context = 0;
  executor = with_result;
  dispatcher = none;
}

-- The goroutine reads its task, then the task is cancelled, and then the goroutine writes; a second
-- end of the execution reads before the cancellation as well. Events are appended out of order.
abbrev moves : List Move
moves =
    dispatches (some dispatch)
    ∷ calls 0 (begins shared_launch)
    ∷ reports 0 task "thinking" "half" none tt
    ∷ calls 0 (cancels (some cancellation))
    ∷ calls 1 (finishes shared_launch task (ok (record { content = "done" })) tt)
    ∷ appends 1
    ∷ []

abbrev system_in : String → System
system_in state = record {
  service = record shared_service {
    world = record {
      memory = record { tasks = ("t1", task_in state) ∷ []; events = []; appended = 0 };
      view = [];
      pending = [];
    };
  };
  past = [];
}

system_in-IsShared : (state : String) → IsShared (system_in state).service
unfolding shared_service
system_in-IsShared state = record { tasks = refl; audit = refl }

undisturbed : All IsUndisturbed moves
undisturbed = (tt, (tt, (refl, (tt, (tt, (tt, tt))))))

run-IsAudited_example :
    let w = (run text_of outside fresh_system moves).service.world in
    (history : List AuditEvent) × (leads "" history ≡ some (state_of w.memory "t1"))
    × ((test : AuditEvent → Bool) → count test history ≡ count test (recorded "t1" w))
run-IsAudited_example = run-IsAudited text_of outside moves "t1" undisturbed

run-cancelled_example :
    lookup "t1" (tasks_of (run text_of outside (system_in "cancelled") moves))
    ≡ some (task_in "cancelled")
unfolding lookup
run-cancelled_example =
    run-cancelled text_of outside (system_in "cancelled") moves "t1" (task_in "cancelled")
      (system_in-IsShared "cancelled") undisturbed refl refl

-- A progress report that read before the cancellation writes after it.
abbrev overwriting : List Move
overwriting =
    calls 0 (begins shared_launch)
    ∷ calls 0 (cancels (some cancellation))
    ∷ reports 1 task "thinking" "half" none tt
    ∷ []

cancellation_lost :
    state_of (run text_of outside (system_in "queued") overwriting).service.world.memory "t1"
    ≡ "running"
unfolding run begin cancel_task persist_progress shared_service shared_repository post transition
    put lookup insert trim transition_with_audit state_of
cancellation_lost = refl

run-SameTask_example :
    (later : TaskRecord) × (lookup "t1"
        (tasks_of (run text_of outside (system_in "queued") overwriting))
      ≡ some later)
    × SameTask (task_in "queued") later
unfolding lookup
run-SameTask_example =
    run-SameTask text_of outside (system_in "queued").service overwriting "t1" (task_in "queued")
      (system_in-IsShared "queued") refl

abbrev outbound : AuthorizeOutboundRequest
outbound = record {
  request_id = "r1";
  task_id = "t1";
  agent_id = "a1";
  channel_id = "ops";
  target_id = "room";
  metadata = [];
}

authorize_outbound_iff_example :
    authorize_outbound (service_in "running") (some outbound) ≡ ok (authorization outbound true "")
    ↔ Authorized (service_in "running") outbound
authorize_outbound_iff_example = authorize_outbound_iff (service_in "running") outbound

accept-accept_example :
    let s = (accept text_of (local_service outside) "t1" "ops" "room" "check" [] options).0 in
    accept text_of s "t1" "other" "hall" "again" [] options
    ≡ (s, dispatch_response "t1" "queued" true "")
unfolding local_service lookup
accept-accept_example =
    accept-accept outside text_of (local_service outside) "t1" "ops" "other" "room" "hall" "check"
      "again" [] [] options options (record { tasks = refl; audit = refl }) refl

starts : (begin (service_in "queued") launch).1 ≡ some task
unfolding begin local_service repository transition append lookup transition_with_audit insert
starts = refl

begin-within_limit_example :
    (old : TaskRecord) × (lookup "t1" (service_in "queued").world.tasks ≡ some old)
    × (old.state ≡ "queued")
    × (lookup "t1" (begin (service_in "queued") launch).0.world.tasks
        ≡ some (record old { state = "running"; attempt = inc_64 old.attempt }))
    × ((pos_part old.max_attempts ≡ 0) ⊎ inc_64 old.attempt ≤ℤ old.max_attempts)
begin-within_limit_example =
    begin-within_limit outside text_of (service_in "queued") launch task
      (service_in-IsLocal "queued") starts

accepts :
    (cancel_task (service_in "running") (some cancellation)).1
    ≡ ok (dispatch_response "t1" "cancelled" true "")
unfolding cancel_task local_service repository transition append trim lookup transition_with_audit
    insert
accepts = refl

cancel_task-accepted_example :
    let s = (cancel_task (service_in "running") (some cancellation)).0 in
    (old : TaskRecord) × (lookup "t1" (service_in "running").world.tasks ≡ some old)
    × (is_terminal old.state ≡ false)
    × (lookup "t1" s.world.tasks
        ≡ some (record old {
          state = "cancelled";
          error = if blank " stop " then "cancelled by operator" else trim " stop ";
        }))
    × (lookup "t1" s.cancels ≡ none)
    × (s.cancelled
        ≡ also (lookup "t1" (service_in "running").cancels) (service_in "running").cancelled)
cancel_task-accepted_example =
    cancel_task-accepted outside text_of (service_in "running") cancellation
      (dispatch_response "t1" "cancelled" true "") (service_in-IsLocal "running") accepts refl
