-- ===== src/Gate/Admission.antt =====
-- internal/application/gate/service.go: how tasks come in (IngestInbound, DispatchTask, accept), what
-- may go out (AuthorizeOutbound), and the recovery after a start.
use keelmesh.Prelude.{
  String, Bool, true, false, ◌||◌, ◌&&◌, not, Map, lookup, trim, blank, concat, Option, none, some,
  List, [], ◌∷◌, ◌==◌, if◌then◌else◌, pos, Result, ok, err, Error, wrap,
}
use keelmesh.Gate.Types.{
  TaskRecord, TaskEntry, audit_event, TaskOptions, DispatchResponse, IngestInboundRequest,
  DispatchTaskRequest, AuthorizeOutboundRequest, AuthorizeOutboundResponse,
}
use keelmesh.Gate.Service.{
  Service, invalid_request, dispatch_response, transition_with_audit, create_with_audit,
  start_execution,
}

unfoldable pub task_options_from_metadata : Map String → TaskOptions
task_options_from_metadata metadata = record {
  require_approval = elim (lookup "require_approval" metadata) [
    | none ↦ false
    | some v ↦ v == "true"
  ];
  max_attempts = pos 0;
  max_wall_time_ms = pos 0;
}

-- The record of a task that is new.
unfoldable pub new_task : String → String → String → Map String → TaskOptions → TaskRecord
new_task channel_id target_id content metadata options = record {
  channel_id = channel_id;
  target_id = target_id;
  content = content;
  metadata = metadata;
  error = "";
  result = "";
  progress = "";
  progress_state = "";
  state = if options.require_approval then "waiting_approval" else "queued";
  last_sequence = pos 0;
  last_event_id = "";
  attempt = pos 0;
  max_attempts = options.max_attempts;
  max_wall_time_ms = options.max_wall_time_ms;
  require_approval = options.require_approval;
  approval_granted = false;
}

unfoldable pub inbound_task_id : IngestInboundRequest → String
inbound_task_id r =
    if blank r.request_id
    then concat ("inbound-" ∷ r.channel_id ∷ "-" ∷ r.message_id ∷ [])
    else trim r.request_id

unfoldable pub recovered_reason : String
recovered_reason = "process startup recovery"

module _ {W : Type 0} (render : Error → String) where
  -- The creation of `accept`: the record and its audit event, then the start.
  unfoldable pub create_task : Service W → String → TaskRecord → Service W × DispatchResponse
  create_task s id entry =
      let (w, failure) =
        create_with_audit s id entry (audit_event id "created" "" entry.state "") in
      let s' = record s { world = w } in
      elim failure [
        | some e ↦ (s', dispatch_response id "failed" false (render e))
        | none ↦ (
          if entry.state == "queued" then start_execution s' id entry else s',
          dispatch_response id entry.state true "",
        )
      ]

  unfoldable pub accept :
      Service W
      → String
      → String
      → String
      → String
      → Map String
      → TaskOptions
      → Service W × DispatchResponse
  unfolding create_task new_task
  accept s id channel_id target_id content metadata options = elim (s.tasks.get s.world id) [
    | err e ↦ (s, dispatch_response id "failed" false (render e))
    | ok none ↦ create_task s id (new_task channel_id target_id content metadata options)
    | ok (some entry) ↦ (s, dispatch_response id entry.state true "")
  ]

  unfoldable pub ingest_inbound :
      Service W → Option IngestInboundRequest → Service W × Result DispatchResponse
  unfolding accept inbound_task_id task_options_from_metadata
  ingest_inbound s none = (s, err invalid_request)
  ingest_inbound s (some r) =
      if blank r.channel_id || blank r.target_id || blank r.content
      then (s, err invalid_request)
      else let (s', response) =
          accept s (inbound_task_id r) r.channel_id r.target_id r.content r.metadata
            (task_options_from_metadata r.metadata) in
        (s', ok response)

  unfoldable pub dispatch_task :
      Service W → Option DispatchTaskRequest → Service W × Result DispatchResponse
  unfolding accept
  dispatch_task s none = (s, err invalid_request)
  dispatch_task s (some r) =
      if blank r.task_id || blank r.channel_id || blank r.target_id || blank r.content
      then (s, err invalid_request)
      else let (s', response) =
          accept s r.task_id r.channel_id r.target_id r.content r.metadata (record {
            require_approval = r.require_approval;
            max_attempts = r.max_attempts;
            max_wall_time_ms = r.max_wall_time_ms;
          }) in
        (s', ok response)

abbrev pub authorization : AuthorizeOutboundRequest → Bool → String → AuthorizeOutboundResponse
authorization r allowed reason = record {
  request_id = r.request_id;
  task_id = r.task_id;
  agent_id = r.agent_id;
  metadata = r.metadata;
  allowed = allowed;
  reason = reason;
}

module _ {W : Type 0} where
  unfoldable pub authorize_outbound :
      Service W → Option AuthorizeOutboundRequest → Result AuthorizeOutboundResponse
  authorize_outbound s none = err invalid_request
  authorize_outbound s (some r) =
      if blank r.channel_id || blank r.target_id
      then err invalid_request
      else if blank r.task_id
      then ok (authorization r false "task_id is required for outbound authorization")
      else elim (s.tasks.get s.world r.task_id) [
        | err e ↦ err (wrap "gatecore: get task: %w" [] e)
        | ok none ↦ ok (authorization r false "gatecore: task not found")
        | ok (some entry) ↦
            if not (entry.channel_id == r.channel_id) || not (entry.target_id == r.target_id)
            then ok (authorization r false "outbound target does not match task")
            else if entry.state == "cancelled"
            then ok (authorization r false "task is cancelled")
            else ok (authorization r true "")
      ]

  -- One round of the loop of `RecoverPending`.
  unfoldable pub recover_entry : Service W → TaskEntry → Service W × Option Error
  unfolding recovered_reason
  recover_entry s e =
      if e.task.require_approval && not e.task.approval_granted
      then (s, none)
      else let task = record e.task { state = "queued" } in
        let (w, applied, failure) =
          transition_with_audit s e.id e.task.state task
            (audit_event e.id "recovered" e.task.state "queued" recovered_reason) in
        let s' = record s { world = w } in
        elim failure [
          | some x ↦ (s', some (wrap "gatecore: requeue task %q: %w" (e.id ∷ []) x))
          | none ↦ (if applied then start_execution s' e.id task else s', none)
        ]

  unfoldable pub recover_entries : Service W → List TaskEntry → Service W × Option Error
  unfolding recover_entry
  recover_entries s [] = (s, none)
  recover_entries s (e ∷ rest) =
      let (s', failure) = recover_entry s e in
      let done = recover_entries s' rest in elim failure [ some x ↦ (s', some x) | none ↦ done ]

  unfoldable pub recover_pending : Service W → Service W × Option Error
  unfolding recover_entries
  recover_pending s = elim (s.tasks.list_by_state s.world ("queued" ∷ "running" ∷ [])) [
    | err e ↦ (s, some (wrap "gatecore: list recoverable tasks: %w" [] e))
    | ok entries ↦ recover_entries s entries
  ]
