-- ===== src/Bridge/Project.antt =====
-- internal/bootstrap/loopcore/bridge.go: how the events of an agent advance the run of their task.
pub mod Step
pub mod Laws
use keelmesh.Prelude.{
  String, Bool, true, false, ◌||◌, ◌&&◌, not, Option, none, some, List, [], ◌∷◌, ◌==◌,
  if◌then◌else◌, ℤ, pos, is_some,
}
use keelmesh.Agent.Events.{TaskEvent}
use keelmesh.Agent.Service.{ends}
use keelmesh.Loop.Types.{RunRepository, AdvanceStepRequest}
use keelmesh.Loop.Service.{advance_step}

-- `mapAgentStepState`.
unfoldable pub map_agent_step_state : String → String
map_agent_step_state state = if state == "final" || state == "failed" then state else "running"

-- The state of the step, and its output: a progress note of a task that goes on is running.
unfoldable pub step_state : TaskEvent → String
step_state e = if is_some e.progress && not (ends e) then "running" else e.state

unfoldable pub step_output : TaskEvent → String
step_output e = elim e.progress [
  | none ↦ e.content
  | some p ↦ if ends e then e.content else p.preview
]

unfoldable pub step_iteration : TaskEvent → ℤ
step_iteration e = elim e.progress [ none ↦ pos 0 | some p ↦ p.iteration ]

unfoldable pub advance_request : String → TaskEvent → AdvanceStepRequest
unfolding map_agent_step_state step_state step_output step_iteration
advance_request task_id e = record {
  run_id = task_id;
  step_id = "agent";
  state = map_agent_step_state (step_state e);
  output = step_output e;
  error = e.error;
  iteration = step_iteration e;
}

-- `continue`: a bare running event changes nothing.
unfoldable pub is_skipped : TaskEvent → Bool
unfolding step_state
is_skipped e = step_state e == "running" && not (is_some e.progress)

module _ {W : Type 0} (store : RunRepository W) where
  -- The loop of `projectAgentEvents` over what `Recv` answers, up to its error; a nil event ends it.
  unfoldable pub project_agent_events : W → String → List (Option TaskEvent) → W
  unfolding advance_request is_skipped
  project_agent_events w task_id [] = w
  project_agent_events w task_id (none ∷ rest) = w
  project_agent_events w task_id (some e ∷ rest) =
      let skipped = project_agent_events w task_id rest in
      let w' = (advance_step store w (some (advance_request task_id e))).0 in
      let later = project_agent_events w' task_id rest in
      if is_skipped e then skipped else if ends e then w' else later
