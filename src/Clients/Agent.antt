-- ===== src/Clients/Agent.antt =====
-- internal/infrastructure/agentclient/client.go: how GateCore executes a task on AgentRuntime. What the
-- agent answers, and the order in which, is a parameter: the events of the subscription up to its
-- error, and the response of the call that runs beside it.
pub mod Laws
use keelmesh.Prelude.{
  String, Map, Option, none, some, List, [], ◌∷◌, ◌==◌, if◌then◌else◌, Result, ok, err, Error,
  errorf, wrap,
}
use keelmesh.Gate.Types.{Task, ExecutionResult}
use keelmesh.Agent.Events.{TaskEvent}
use keelmesh.Agent.Service.{ends, ExecuteTaskRequest, ExecuteTaskResponse}

-- The request of `ExecuteTask` that a task becomes.
abbrev pub execute_request : Task → ExecuteTaskRequest
execute_request task = record {
  task_id = task.id;
  channel_id = task.channel_id;
  target_id = task.target_id;
  content = task.content;
}

-- `executionResult`.
unfoldable pub execution_result : Option ExecuteTaskResponse → Result ExecutionResult
execution_result none = err (errorf "agentclient: empty execution response" [])
execution_result (some response) =
    if response.state == "failed"
    then err (errorf "agentclient: task failed: %s" (response.error ∷ []))
    else ok (record { content = response.content })

-- The result of the answer of `ExecuteTask`.
unfoldable pub executed : Result (Option ExecuteTaskResponse) → Result ExecutionResult
unfolding execution_result
executed (err e) = err (wrap "agentclient: execute task: %w" [] e)
executed (ok response) = execution_result response

-- `ExecuteResult`, with what `ExecuteTask` answers to a request.
unfoldable pub execute_result :
    (ExecuteTaskRequest → Result (Option ExecuteTaskResponse)) → Task → Result ExecutionResult
unfolding executed
execute_result call task = executed (call (execute_request task))

module _ {W : Type 0} (projector : Option (W → TaskEvent → W × Option Error))
    (progress : Option (W → String → String → W)) where
  -- `c.projector.ProjectTaskEvent`, if there is a projector.
  abbrev pub project : W → TaskEvent → W × Option Error
  project w e = elim projector [ none ↦ (w, none) | some p ↦ p w e ]

  -- `progress(…)`, if the event has progress and there is a function for it.
  abbrev pub tell : W → TaskEvent → W
  tell w e = elim e.progress [
    | none ↦ w
    | some p ↦ elim progress [ none ↦ w | some f ↦ f w p.status p.preview ]
  ]

  -- The loop of `ExecuteResultWithProgress` over what `Recv` answers, up to its error.
  unfoldable pub project_events : W → List TaskEvent → W × Option Error
  project_events w [] = (w, none)
  project_events w (e ∷ rest) =
      let (w', failure) = project w e in
      let w'' = tell w' e in
      let later = project_events w'' rest in
      elim failure [
        | some x ↦ (w', some (wrap "agentclient: project task event: %w" [] x))
        | none ↦ if ends e then (w'', none) else later
      ]

  -- `ExecuteResultWithProgress`, with the error of the subscription, its events, and the answer of
  -- `ExecuteTask`.
  unfoldable pub execute_result_with_progress :
      W
      → Option Error
      → List TaskEvent
      → Result (Option ExecuteTaskResponse)
      → W × Result ExecutionResult
  unfolding project_events executed
  execute_result_with_progress w (some e) events answer =
      (w, err (wrap "agentclient: subscribe task events: %w" [] e))
  execute_result_with_progress w none events answer =
      let (w', failure) = project_events w events in
      elim failure [ some e ↦ (w', err e) | none ↦ (w', executed answer) ]
