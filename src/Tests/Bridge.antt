-- ===== src/Tests/Bridge.antt =====
-- The theorems on internal/bootstrap/loopcore/bridge.go at concrete inputs.
use keelmesh.Prelude.{◌≡◌, refl, lookup, trim, Map, none, some, [], ◌∷◌, pos, ok, arith, String}
use keelmesh.Channel.Types.{Inbound}
use keelmesh.Api.Messages.{InboundMessage}
use keelmesh.Api.Stream.{inbound_message}
use keelmesh.Agent.Events.{TaskEvent, Progress}
use keelmesh.Loop.Types.{Run, Step}
use keelmesh.Loop.Service.{memory_repository, start_run, queue_steps, persist}
use keelmesh.Bridge.Inbound.{no_sender, no_peer, inbound_domain}
use keelmesh.Bridge.Inbound.Laws.{inbound_domain-inbound_message}
use keelmesh.Bridge.Receive.{Clients, receive, annotated, start_task, run_request}
use keelmesh.Bridge.Receive.Laws.{IsTaskOf, receive-IsBridged}
use keelmesh.Bridge.Project.{project_agent_events, step_iteration}
use keelmesh.Bridge.Project.Step.{IsBridged}
use keelmesh.Bridge.Project.Laws.{
  IsEnded, IsOverrun, project_agent_events-IsEnded, project_agent_events-IsOverrun,
}

abbrev received : Inbound
received = record {
  channel_id = "ops";
  message_id = "m1";
  chat_id = "room";
  sender_id = "u1";
  sender_name = "Ada";
  sender = no_sender;
  peer = record no_peer { kind = "group" };
  content = "check";
  metadata = ("k", "v") ∷ [];
  media = [];
  session_key = "s";
  media_scope = "";
  received_at = 1700000000123456789;
}

inbound_domain-inbound_message_example :
    inbound_domain 5 (inbound_message received)
    ≡ record received { received_at = 1700000000123000000 }
inbound_domain-inbound_message_example = inbound_domain-inbound_message 5 received (ground arith)

-- Clients that note nothing, and take every message.
abbrev clients : Clients String
clients = record {
  prepare = λ c p. (
    c,
    ok (some (record { typing_action = ""; reaction_action = ""; placeholder_message = "p1" })),
  );
  ingest = λ c m. (c, none);
  edit = λ c r. c;
}

abbrev arrived : InboundMessage
arrived = record {
  channel_id = "ops";
  message_id = "m1";
  chat_id = "room";
  sender_id = "u1";
  sender_name = "Ada";
  sender = none;
  peer = none;
  content = "check";
  metadata = [];
  received_at_ms = pos 0;
  media = [];
  session_key = "";
  media_scope = "";
}

receive-IsBridged_example :
    IsTaskOf "m1" (receive clients memory_repository "" [] 7 arrived).runs "m1"
unfolding receive start_task start_run queue_steps trim persist memory_repository run_request
    annotated inbound_domain lookup
receive-IsBridged_example = receive-IsBridged clients "" [] 7 arrived "m1" refl

abbrev working_step : Step
working_step = record {
  id = "agent";
  kind = "agent";
  name = "Agent execution";
  state = "running";
  iteration = pos 0;
  max_iterations = pos 1;
  output = "";
  error = "";
}

abbrev bridged : Run
bridged = record {
  task_id = "m1";
  channel_id = "ops";
  target_id = "room";
  input = "check";
  metadata = [];
  state = "running";
  current_step_id = "agent";
  iteration = pos 0;
  output = "";
  error = "";
  steps = working_step ∷ [];
}

abbrev stored : Map Run
stored = ("m1", bridged) ∷ []

abbrev bridged-IsBridged : IsBridged bridged
bridged-IsBridged = record {
  step = working_step;
  steps = refl;
  id = refl;
  limit = refl;
  running = refl;
}

abbrev event : TaskEvent
event = record {
  task_id = "m1";
  event_id = "m1-1";
  sequence = 1;
  state = "running";
  content = "";
  error = "";
  progress = none;
  occurred_at = 0;
}

abbrev last_event : TaskEvent
last_event = record event { state = "final"; content = "done" }

project_agent_events-IsEnded_example :
    IsEnded
      (project_agent_events memory_repository stored "m1" (some event ∷ some last_event ∷ []))
      "m1"
unfolding lookup trim step_iteration
project_agent_events-IsEnded_example =
    project_agent_events-IsEnded stored "m1" bridged (event ∷ []) last_event [] refl refl
      bridged-IsBridged (refl, tt) refl refl

abbrev second_round : Progress
second_round = record { status = "running"; preview = "still at it"; iteration = pos 2 }

abbrev slow_event : TaskEvent
slow_event = record event { progress = some second_round }

project_agent_events-IsOverrun_example :
    IsOverrun
      (project_agent_events memory_repository stored "m1" (some slow_event ∷ some last_event ∷ []))
      "m1"
unfolding lookup trim
project_agent_events-IsOverrun_example =
    project_agent_events-IsOverrun stored "m1" bridged slow_event second_round
      (some last_event ∷ []) refl refl bridged-IsBridged refl refl
