-- ===== src/Clients/Gate.antt =====
-- internal/infrastructure/gateclient/client.go, and the projector of internal/bootstrap/gatecore/run.go.
-- The calls of GateCore are parameters, over the state `G` that they act on; a response may be nil,
-- and so may the client's service.
pub mod Laws
use keelmesh.Prelude.{
  String, Bool, not, Map, value_at, blank, Option, none, some, [], ◌∷◌, ◌==◌, ◌||◌, pos,
  if◌then◌else◌, Result, ok, err, Error, errorf, wrap,
}
use keelmesh.Gate.Types.{
  DispatchResponse, TaskRequest, IngestInboundRequest, AuthorizeOutboundRequest,
  AuthorizeOutboundResponse, ProjectTaskEventRequest, ProjectTaskEventResponse,
}
use keelmesh.Agent.Events.{TaskEvent}
use keelmesh.Channel.Types.{Inbound, Outbound}

pub record GateApi (G : Type 0) : Type 0 where
  pub ingest_inbound : G → IngestInboundRequest → G × Result (Option DispatchResponse)
  pub authorize_outbound : G → AuthorizeOutboundRequest → Result (Option AuthorizeOutboundResponse)
  pub approve_task : G → TaskRequest → G × Result (Option DispatchResponse)
  pub cancel_task : G → TaskRequest → G × Result (Option DispatchResponse)
  pub project_task_event :
      G → ProjectTaskEventRequest → G × Result (Option ProjectTaskEventResponse)

abbrev pub unavailable : Error
unavailable = errorf "gateclient: gate service is unavailable" []

-- The request that `IngestInbound` builds.
unfoldable pub inbound_request : Inbound → IngestInboundRequest
inbound_request m = record {
  request_id = m.message_id;
  channel_id = m.channel_id;
  target_id = m.chat_id;
  message_id = m.message_id;
  content = m.content;
  metadata = m.metadata;
}

-- The request that `AuthorizeOutbound` builds.
unfoldable pub outbound_request : Outbound → AuthorizeOutboundRequest
outbound_request m = record {
  request_id = m.id;
  task_id = value_at "task_id" m.metadata;
  agent_id = value_at "agent_id" m.metadata;
  channel_id = m.channel_id;
  target_id = m.target_id;
  metadata = m.metadata;
}

-- The request of both `ProjectTaskEvent`.
unfoldable pub event_request : TaskEvent → ProjectTaskEventRequest
event_request e = record {
  task_id = e.task_id;
  event_id = e.event_id;
  sequence = pos e.sequence;
  state = e.state;
  content = e.content;
  error = e.error;
  progress_state = elim e.progress [ none ↦ "" | some p ↦ p.status ];
  progress_content = elim e.progress [ none ↦ "" | some p ↦ p.preview ];
}

-- What a call comes to whose response says whether it was accepted.
abbrev pub accepted : String → String → String → Result (Option DispatchResponse) → Option Error
accepted failed empty rejected (err e) = some (wrap failed [] e)
accepted failed empty rejected (ok none) = some (errorf empty [])
accepted failed empty rejected (ok (some response)) =
    if not response.accepted then some (errorf rejected (response.reason ∷ [])) else none

module _ {G : Type 0} where
  unfoldable pub ingest_inbound : Option (GateApi G) → G → Inbound → G × Option Error
  unfolding inbound_request
  ingest_inbound none g m = (g, none)
  ingest_inbound (some api) g m =
      let (g', answer) = api.ingest_inbound g (inbound_request m) in
      (
        g',
        accepted "gateclient: ingest inbound: %w" "gateclient: inbound returned empty response"
            "gateclient: inbound rejected: %s" answer,
      )

  unfoldable pub authorize_outbound : Option (GateApi G) → G → Outbound → Option Error
  unfolding outbound_request
  authorize_outbound none g m = none
  authorize_outbound (some api) g m =
      if blank (value_at "task_id" m.metadata)
      then none
      else elim (api.authorize_outbound g (outbound_request m)) [
        | err e ↦ some (wrap "gateclient: authorize outbound: %w" [] e)
        | ok none ↦ some (errorf "gateclient: outbound returned empty response" [])
        | ok (some response) ↦
            if not response.allowed
            then some (errorf "gateclient: outbound rejected: %s" (response.reason ∷ []))
            else none
      ]

  unfoldable pub approve_task : Option (GateApi G) → G → String → String → G × Option Error
  approve_task none g id reason = (g, some unavailable)
  approve_task (some api) g id reason =
      let (g', answer) = api.approve_task g (record { task_id = id; reason = reason }) in
      (
        g',
        accepted "gateclient: approve task: %w" "gateclient: approve task returned empty response"
            "gateclient: approve task rejected: %s" answer,
      )

  unfoldable pub cancel_task : Option (GateApi G) → G → String → String → G × Option Error
  cancel_task none g id reason = (g, some unavailable)
  cancel_task (some api) g id reason =
      let (g', answer) = api.cancel_task g (record { task_id = id; reason = reason }) in
      (
        g',
        accepted "gateclient: cancel task: %w" "gateclient: cancel task returned empty response"
            "gateclient: cancel task rejected: %s" answer,
      )

  -- `Client.ProjectTaskEvent`; an event may be nil.
  unfoldable pub project_task_event : Option (GateApi G) → G → Option TaskEvent → G × Option Error
  unfolding event_request
  project_task_event none g e = (g, none)
  project_task_event (some api) g none = (g, none)
  project_task_event (some api) g (some e) =
      let (g', answer) = api.project_task_event g (event_request e) in
      elim answer [
        | err x ↦ (g', some (wrap "gateclient: project task event: %w" [] x))
        | ok none ↦ (g', none)
        | ok (some response) ↦
            if response.reason == ""
            then (g', none)
            else (g', some (errorf "gateclient: task event rejected: %s" (response.reason ∷ [])))
      ]

  -- `taskEventProjector.ProjectTaskEvent`, on the service in the same process.
  unfoldable pub project_local :
      (G → ProjectTaskEventRequest → G × Result ProjectTaskEventResponse)
      → G
      → TaskEvent
      → G × Option Error
  unfolding event_request
  project_local handler g e =
      let (g', answer) = handler g (event_request e) in
      elim answer [
        | err x ↦ (g', some x)
        | ok response ↦
            if response.reason == "" || response.duplicate
            then (g', none)
            else (g', some (errorf "task event projection rejected: %s" (response.reason ∷ [])))
      ]
