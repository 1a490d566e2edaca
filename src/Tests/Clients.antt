-- ===== src/Tests/Clients.antt =====
-- The theorems on the clients in internal/infrastructure at concrete inputs.
use keelmesh.Prelude.{ℕ, ◌≡◌, refl, lookup, none, some, [], ◌∷◌, ok, arith, pos, trim}
use keelmesh.Tests.Channel.{repository, message}
use keelmesh.Tests.Gate.{service_in, text_of, task_in}
use keelmesh.Gate.Types.{Task, ExecutionResult}
use keelmesh.Gate.Memory.{Memory}
use keelmesh.Gate.Service.{Service}
use keelmesh.Agent.Events.{TaskEvent}
use keelmesh.Agent.Service.{ExecuteTaskResponse}
use keelmesh.Channel.Types.{Outbound}
use keelmesh.Channel.Repository.{Repository, half_hour}
use keelmesh.Channel.Send.{send}
use keelmesh.Clients.Gate.Laws.{policy}
use keelmesh.Clients.Channel.{dispatch}
use keelmesh.Clients.Channel.Laws.{direct, dispatch_once}
use keelmesh.Clients.Agent.{execute_result_with_progress}
use keelmesh.Clients.Agent.Laws.{projector, progress, execute_result_with_progress-ended}

abbrev running : Service Memory
running = service_in "running"

-- ChannelCore with the authorizer of GateCore.
abbrev wired : Repository ℕ
wired = record repository { authorizer = some (policy text_of running) }

abbrev reply : Outbound
reply = record message { metadata = ("task_id", "t1") ∷ [] }

abbrev task : Task
task = record {
  id = "t1";
  channel_id = "ops";
  target_id = "room";
  content = "check";
  metadata = [];
  event_sequence = pos 0;
}

abbrev answer : ExecutionResult
answer = record { content = "done" }

dispatch_once_example :
    let r = (dispatch (direct 5) wired task answer).0 in
    dispatch (direct 9) r task answer ≡ (r, none)
unfolding lookup trim keelmesh.Channel.Send.previous dispatch keelmesh.Api.Send.send_message send
    keelmesh.Channel.Repository.get keelmesh.Clients.Gate.authorize_outbound
    keelmesh.Gate.Admission.authorize_outbound keelmesh.Gate.Local.local_service
dispatch_once_example = dispatch_once wired task answer 5 9 refl refl refl refl (omega arith)

abbrev event : TaskEvent
event = record {
  task_id = "t1";
  event_id = "t1-1";
  sequence = 1;
  state = "final";
  content = "done";
  error = "";
  progress = none;
  occurred_at = 0;
}

abbrev response : ExecuteTaskResponse
response = record { task_id = "t1"; state = "final"; content = "done"; error = "" }

ended_stored :
    (service_in "cancelled").tasks.get (service_in "cancelled").world "t1"
    ≡ ok (some (task_in "cancelled"))
unfolding lookup keelmesh.Gate.Local.local_service keelmesh.Gate.Memory.repository
ended_stored = refl

execute_result_with_progress-ended_example :
    (execute_result_with_progress
      (some projector)
      (some (progress task none))
      (service_in "cancelled")
      none
      (event ∷ [])
      (ok (some response))).0
    ≡ service_in "cancelled"
execute_result_with_progress-ended_example =
    execute_result_with_progress-ended (service_in "cancelled") task none (task_in "cancelled")
      ended_stored refl none (event ∷ []) (ok (some response)) (refl, tt)
