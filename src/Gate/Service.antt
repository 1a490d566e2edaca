-- ===== src/Gate/Service.antt =====
-- internal/application/gate/service.go: the handlers of the gRPC service over any repository, audit
-- store and dispatcher. A handler returns the new service beside its response; what it starts in the
-- background is recorded in `spawned`.
use keelmesh.Prelude.{
  ℕ, suc, String, Bool, true, false, not, Map, insert, blank, Option, none, some, List, [], ◌∷◌,
  ◌==◌, if◌then◌else◌, Result, ok, err, Error, new, wrap,
}
use keelmesh.Gate.Types.{TaskRecord, AuditEvent, audit_event, DispatchResponse, TaskStatusResponse}
use keelmesh.Gate.Store.{TaskRepository, AuditStore, OutboundDispatcher}

-- Which of the executor interfaces the configured executor implements.
pub data Executor : Type 0 where
  plain with_result with_progress : Executor

-- A goroutine of `startExecution`, with what it captured.
pub record Launch (W : Type 0) : Type 0 where
  pub task_id : String
  pub entry : TaskRecord
  pub context : ℕ
  pub executor : Executor
  pub dispatcher : Option (OutboundDispatcher W)

-- `Service`. A cancel function is the number of the context that it cancels.
pub record Service (W : Type 0) : Type 0 where
  pub world : W
  pub tasks : TaskRepository W
  pub audit : Option (AuditStore W)
  pub executor : Option Executor
  pub dispatcher : Option (OutboundDispatcher W)
  pub cancels : Map ℕ
  pub contexts : ℕ
  pub cancelled : List ℕ
  pub spawned : List (Launch W)

abbrev pub invalid_request : Error
invalid_request = new "gatecore: invalid request"

abbrev pub task_not_found : Error
task_not_found = new "gatecore: task not found"

abbrev pub dispatch_response : String → String → Bool → String → DispatchResponse
dispatch_response id state accepted reason = record {
  task_id = id;
  state = state;
  accepted = accepted;
  reason = reason;
}

-- The parts of an audit event that `recordAudit` is given.
abbrev pub plain_event : AuditEvent → AuditEvent
plain_event e = audit_event e.task_id e.action e.from_state e.to_state e.reason

module _ {W : Type 0} where
  -- `Service.transition`, without the transitioner: a read, then a write.
  unfoldable pub get_and_put :
      TaskRepository W → W → String → String → TaskRecord → W × Bool × Option Error
  get_and_put tasks w id expected task = elim (tasks.get w id) [
    | err e ↦ (w, false, some e)
    | ok none ↦ (w, false, none)
    | ok (some current) ↦
        if not (current.state == expected)
        then (w, false, none)
        else let (w', failure) = tasks.put w id task in
          elim failure [ some e ↦ (w', false, some e) | none ↦ (w', true, none) ]
  ]

  unfoldable pub transition : Service W → String → String → TaskRecord → W × Bool × Option Error
  unfolding get_and_put
  transition s id expected task = elim s.tasks.transitioner [
    | some t ↦ t s.world id expected task
    | none ↦ get_and_put s.tasks s.world id expected task
  ]

  unfoldable pub record_audit : Service W → W → AuditEvent → W × Option Error
  record_audit s w event = elim s.audit [ none ↦ (w, none) | some append ↦ append w event ]

  unfoldable pub transition_with_audit :
      Service W → String → String → TaskRecord → AuditEvent → W × Bool × Option Error
  unfolding transition record_audit
  transition_with_audit s id expected task event = elim s.tasks.audited [
    | some t ↦ t.transition_with_audit s.world id expected task event
    | none ↦
        let (w, applied, failure) = transition s id expected task in
        elim failure [
          | some e ↦ (w, applied, some e)
          | none ↦
              if not applied
              then (w, false, none)
              else let (w', failure') = record_audit s w (plain_event event) in (w', true, failure')
        ]
  ]

  unfoldable pub create_with_audit : Service W → String → TaskRecord → AuditEvent → W × Option Error
  unfolding record_audit
  create_with_audit s id task event = elim s.tasks.audited [
    | some t ↦ t.create_with_audit s.world id task event
    | none ↦
        let (w, failure) = s.tasks.put s.world id task in
        elim failure [ some e ↦ (w, some e) | none ↦ record_audit s w (plain_event event) ]
  ]

  unfoldable pub start_execution : Service W → String → TaskRecord → Service W
  start_execution s id entry = elim s.executor [
    | none ↦ s
    | some executor ↦ record s {
      contexts = suc s.contexts;
      cancels = insert id s.contexts s.cancels;
      spawned =
          record {
            task_id = id;
            entry = entry;
            context = s.contexts;
            executor = executor;
            dispatcher = s.dispatcher;
          }
          ∷ s.spawned;
    }
  ]

  unfoldable pub get_task : Service W → Option String → Result TaskStatusResponse
  get_task s none = err invalid_request
  get_task s (some id) = if blank id then err invalid_request else elim (s.tasks.get s.world id) [
    | err e ↦ err (wrap "gatecore: get task: %w" [] e)
    | ok none ↦ err task_not_found
    | ok (some entry) ↦ ok (record {
      task_id = id;
      channel_id = entry.channel_id;
      target_id = entry.target_id;
      state = entry.state;
      error = entry.error;
      result_content = entry.result;
      progress_content = entry.progress;
      progress_state = entry.progress_state;
    })
  ]

  -- The setters. A nil value is `none`.
  unfoldable set_audit_store : Service W → Option (AuditStore W) → Service W
  set_audit_store s audit = record s { audit = audit }

  unfoldable set_executor : Service W → Option Executor → Service W
  set_executor s executor = record s { executor = executor }

  unfoldable set_outbound_dispatcher : Service W → Option (OutboundDispatcher W) → Service W
  set_outbound_dispatcher s dispatcher = record s { dispatcher = dispatcher }
