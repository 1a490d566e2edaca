-- ===== src/Clients/Agent/Laws.antt =====
-- internal/bootstrap/gatecore/run.go: the client of AgentRuntime with the service's own projector and
-- its progress function, on a task that has ended.
use keelmesh.Prelude.{
  String, true, ◌≡◌, refl, sym, ap, ◌∙◌, subst, Option, none, some, List, [], ◌∷◌, All, Result, ok,
  Error, arith, if_cases, option_cases, result_cases, ◌||◌, ◌==◌,
}
use keelmesh.Gate.Types.{TaskRecord, Task, ExecutionResult, ProjectTaskEventRequest, is_terminal}
use keelmesh.Gate.Store.{OutboundDispatcher}
use keelmesh.Gate.Service.{Service}
use keelmesh.Gate.Handlers.{project_task_event, project_task}
use keelmesh.Gate.Execution.{persist_progress}
use keelmesh.Agent.Events.{TaskEvent}
use keelmesh.Agent.Service.{ends, ExecuteTaskResponse}
use keelmesh.Clients.Gate.{project_local, event_request}
use keelmesh.Clients.Agent.{project_events, execute_result_with_progress, tell}

-- The projector of `taskEventProjector`, and the progress function of `execute`.
abbrev pub projector : {W : Type 0} → Service W → TaskEvent → Service W × Option Error
projector = project_local (λ s r. project_task_event s (some r))

abbrev pub progress :
    {W : Type 0} → Task → Option (OutboundDispatcher W) → Service W → String → String → Service W
progress task dispatcher s state content = (persist_progress s task state content dispatcher).0

module _ {W : Type 0} (s : Service W) (task : Task) (dispatcher : Option (OutboundDispatcher W))
    (entry : TaskRecord) (stored : s.tasks.get s.world task.id ≡ ok (some entry))
    (ended : is_terminal entry.state ≡ true) where
  persist_progress-ended :
      (state content : String) → persist_progress s task state content dispatcher ≡ (s, none)
  unfolding persist_progress
  persist_progress-ended state content = ground (arith, stored, ended)

  project_task-ended : (r : ProjectTaskEventRequest) → (project_task s r entry).0 ≡ s
  unfolding project_task
  project_task-ended r = ground (arith, ended)

  project_task_event-ended :
      (r : ProjectTaskEventRequest) → r.task_id ≡ task.id → (project_task_event s (some r)).0 ≡ s
  unfolding project_task_event
  project_task_event-ended r same =
      let read : s.tasks.get s.world r.task_id ≡ ok (some entry) =
        ap (s.tasks.get s.world) same ∙ stored in
      ground (arith, read, project_task-ended r)

  projector-ended : (e : TaskEvent) → e.task_id ≡ task.id → (projector s e).0 ≡ s
  unfolding project_local event_request
  projector-ended e same =
      let kept = project_task_event-ended (event_request e) same in
      let Kept = λ (res : Service W × Option Error). res.0 ≡ s in
      result_cases Kept (project_task_event s (some (event_request e))).1 (λ _ _. kept)
        λ response _.
          if_cases Kept (response.reason == "" || response.duplicate) (λ _. kept) λ _. kept

  tell-ended : (e : TaskEvent) → tell (some projector) (some (progress task dispatcher)) s e ≡ s
  tell-ended e =
      option_cases (λ t. t ≡ s) e.progress (λ _. refl)
        λ p _. ap (λ res. res.0) (persist_progress-ended p.status p.preview)

  project_events-ended :
      (events : List TaskEvent)
      → All (λ e. e.task_id ≡ task.id) events
      → (project_events (some projector) (some (progress task dispatcher)) s events).0 ≡ s
  unfolding project_events
  project_events-ended [] own = refl
  project_events-ended (e ∷ rest) (same, own) =
      let kept = projector-ended e same in
      let told : tell (some projector) (some (progress task dispatcher)) (projector s e).0 e ≡ s =
        subst (λ t. tell (some projector) (some (progress task dispatcher)) t e ≡ s) (sym kept)
          (tell-ended e) in
      let Kept = λ (res : Service W × Option Error). res.0 ≡ s in
      option_cases Kept (projector s e).1
        (λ _.
          if_cases Kept (ends e) (λ _. told)
            λ _.
              subst
                (λ t.
                  (project_events (some projector) (some (progress task dispatcher)) t rest).0 ≡ s)
                (sym told) (project_events-ended rest own))
        λ _ _. kept

  -- Where the task has ended in GateCore, a call of the client for it, with events of the task, changes
  -- nothing in GateCore, whatever its repository: neither the projection of the streamed events nor
  -- the notes of their progress. What `execute` does with the answer that the call returns is not a
  -- part of this.
  pub execute_result_with_progress-ended :
      (subscription : Option Error) (events : List TaskEvent)
      (answer : Result (Option ExecuteTaskResponse))
      → All (λ e. e.task_id ≡ task.id) events
      → (execute_result_with_progress
          (some projector)
          (some (progress task dispatcher))
          s
          subscription
          events
          answer).0
        ≡ s
  unfolding execute_result_with_progress
  execute_result_with_progress-ended (some e) events answer own = refl
  execute_result_with_progress-ended none events answer own =
      let kept = project_events-ended events own in
      option_cases (λ (res : Service W × Result ExecutionResult). res.0 ≡ s)
        (project_events (some projector) (some (progress task dispatcher)) s events).1 (λ _. kept)
        λ _ _. kept
