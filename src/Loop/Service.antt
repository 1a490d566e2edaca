-- ===== src/Loop/Service.antt =====
-- internal/application/loop/service.go: the memory repository and the handlers. A handler holds the
-- service's lock from its read to its write, so it is one step of the stored world.
use keelmesh.Prelude.{
  ℕ, zero, suc, String, Bool, true, false, ◌||◌, ◌&&◌, not, Map, lookup, insert, trim, blank,
  Option, none, some, List, [], ◌∷◌, map, get_elem?, set, ◌==◌, if◌then◌else◌, pos, ltb_ℤ, Result,
  ok, err, Error, new, wrap, ◌>>=◌,
}
use keelmesh.Loop.Types.{
  Step, Run, StepDefinition, StartRunRequest, AdvanceStepRequest, CancelRunRequest, StepStatus,
  RunResponse, RunRepository, is_terminal,
}

-- `memoryRepository`: what is stored and what is handed out are copies, which are values here.
unfoldable pub memory_repository : RunRepository (Map Run)
memory_repository = record {
  get = λ runs id. ok (lookup id runs);
  put = λ runs id run. (insert id run runs, none);
}

abbrev pub invalid_request : Error
invalid_request = new "loopcore: invalid request"

abbrev pub run_not_found : Error
run_not_found = new "loopcore: run not found"

step_status : Step → StepStatus
step_status s = record {
  id = s.id;
  kind = s.kind;
  name = s.name;
  state = s.state;
  iteration = s.iteration;
  output = s.output;
  error = s.error;
}

unfoldable pub response : String → Run → RunResponse
unfolding step_status
response id run = record {
  run_id = id;
  task_id = run.task_id;
  channel_id = run.channel_id;
  target_id = run.target_id;
  state = run.state;
  current_step_id = run.current_step_id;
  iteration = run.iteration;
  output = run.output;
  error = run.error;
  steps = map step_status run.steps;
}

abbrev pub queued_step : StepDefinition → Step
queued_step d = record {
  id = d.id;
  kind = d.kind;
  name = d.name;
  state = "queued";
  iteration = pos 0;
  max_iterations = d.max_iterations;
  output = "";
  error = "";
}

-- The loop of `StartRun` over the step definitions.
unfoldable pub queue_steps : List (Option StepDefinition) → Result (List Step)
queue_steps [] = ok []
queue_steps (none ∷ rest) = err (wrap "%w: step id is required" [] invalid_request)
queue_steps (some d ∷ rest) =
    let more = queue_steps rest in
    if blank d.id
    then err (wrap "%w: step id is required" [] invalid_request)
    else more >>= λ steps. ok (queued_step d ∷ steps)

-- `steps[0].State = "running"`.
abbrev pub first_running : List Step → List Step
first_running [] = []
first_running (s ∷ rest) = record s { state = "running" } ∷ rest

abbrev pub first_id : List Step → String
first_id [] = ""
first_id (s ∷ rest) = s.id

abbrev pub first_state : List Step → String
first_state [] = "final"
first_state (s ∷ rest) = "running"

unfoldable pub new_run : StartRunRequest → List Step → Run
new_run r steps = record {
  task_id = r.task_id;
  channel_id = r.channel_id;
  target_id = r.target_id;
  input = r.input;
  metadata = r.metadata;
  state = first_state steps;
  current_step_id = first_id steps;
  iteration = pos 0;
  output = "";
  error = "";
  steps = first_running steps;
}

-- The search loop of `AdvanceStep`.
unfoldable pub index_of : String → List Step → Option ℕ
index_of id [] = none
index_of id (s ∷ rest) =
    let later = index_of id rest in
    if s.id == id then some zero else elim later [ none ↦ none | some i ↦ some (suc i) ]

abbrev pub supported : String → Bool
supported state = state == "running" || state == "final" || state == "failed"

abbrev pub over_limit : AdvanceStepRequest → Step → Bool
over_limit r s = ltb_ℤ (pos 0) s.max_iterations && ltb_ℤ s.max_iterations r.iteration

-- The run and its step when the iteration limit is passed.
unfoldable pub fail_iteration : AdvanceStepRequest → Run → ℕ → Step → Run
fail_iteration r run i s = record run {
  state = "failed";
  error = "maximum iterations exceeded";
  iteration = r.iteration;
  steps = set run.steps i (record s { state = "failed"; error = "maximum iterations exceeded" });
}

-- The step that the request describes.
abbrev pub report_step : AdvanceStepRequest → Step → Step
report_step r s = record s {
  state = r.state;
  output = r.output;
  error = r.error;
  iteration = r.iteration;
}

-- `run.Steps[index+1]` runs next, if there is one; else the run is final.
unfoldable pub to_next : Run → ℕ → Run
to_next run i = elim (get_elem? run.steps (suc i)) [
  | none ↦ record run { state = "final"; current_step_id = "" }
  | some next ↦ record run {
    current_step_id = next.id;
    steps = set run.steps (suc i) (record next { state = "running" });
  }
]

-- The run after a report within the limit.
unfoldable pub report : AdvanceStepRequest → Run → ℕ → Step → Run
unfolding to_next
report r run i s =
    let run' = record run { iteration = r.iteration; steps = set run.steps i (report_step r s) } in
    if r.state == "failed"
    then record run' { state = "failed"; error = r.error }
    else if r.state == "final"
    then to_next (record run' { output = r.output }) i
    else run'

-- `AdvanceStep` on a run that is not terminal: the new run, and whether it passed the limit.
unfoldable pub advance : AdvanceStepRequest → Run → Result (Run × Bool)
unfolding index_of fail_iteration report
advance r run = elim (index_of r.step_id run.steps) [
  | none ↦ err (wrap "%w: step %q" (r.step_id ∷ []) invalid_request)
  | some i ↦ elim (get_elem? run.steps i) [
    | none ↦ err (wrap "%w: step %q" (r.step_id ∷ []) invalid_request)
    | some s ↦
        if not (supported r.state)
        then err (wrap "%w: unsupported step state %q" (r.state ∷ []) invalid_request)
        else if over_limit r s
        then ok (fail_iteration r run i s, true)
        else ok (report r run i s, false)
  ]
]

unfoldable pub cancel : String → Run → Run
cancel reason run = record run {
  state = "cancelled";
  error = if blank reason then "cancelled by operator" else trim reason;
}

abbrev pub persist_message : Bool → String
persist_message over =
    if over then "loopcore: persist iteration failure: %w" else "loopcore: persist step: %w"

module _ {W : Type 0} (store : RunRepository W) where
  -- `s.store.Put`, and the response.
  unfoldable pub persist : W → String → Run → String → W × Result RunResponse
  unfolding response
  persist w id run failed =
      let (w', failure) = store.put w id run in
      elim failure [ some e ↦ (w', err (wrap failed [] e)) | none ↦ (w', ok (response id run)) ]

  unfoldable pub start_run : W → Option StartRunRequest → W × Result RunResponse
  unfolding persist queue_steps new_run
  start_run w none = (w, err invalid_request)
  start_run w (some r) =
      if blank r.run_id || blank r.task_id || blank r.input
      then (w, err invalid_request)
      else elim (queue_steps r.steps) [
        | err e ↦ (w, err e)
        | ok steps ↦ elim (store.get w r.run_id) [
          | err e ↦ (w, err (wrap "loopcore: check run: %w" [] e))
          | ok (some run) ↦ (w, err (wrap "%w: run already exists" [] invalid_request))
          | ok none ↦ persist w r.run_id (new_run r steps) "loopcore: persist run: %w"
        ]
      ]

  unfoldable pub get_run : W → Option String → Result RunResponse
  unfolding response
  get_run w none = err invalid_request
  get_run w (some id) = if blank id then err invalid_request else elim (store.get w id) [
    | err e ↦ err (wrap "loopcore: get run: %w" [] e)
    | ok none ↦ err run_not_found
    | ok (some run) ↦ ok (response id run)
  ]

  unfoldable pub advance_step : W → Option AdvanceStepRequest → W × Result RunResponse
  unfolding persist advance response
  advance_step w none = (w, err invalid_request)
  advance_step w (some r) =
      if blank r.run_id || blank r.step_id || ltb_ℤ r.iteration (pos 0)
      then (w, err invalid_request)
      else elim (store.get w r.run_id) [
        | err e ↦ (w, err (wrap "loopcore: load run: %w" [] e))
        | ok none ↦ (w, err run_not_found)
        | ok (some run) ↦
            if is_terminal run.state
            then (w, ok (response r.run_id run))
            else elim (advance r run) [
              | err e ↦ (w, err e)
              | ok (run', over) ↦ persist w r.run_id run' (persist_message over)
            ]
      ]

  unfoldable pub cancel_run : W → Option CancelRunRequest → W × Result RunResponse
  unfolding persist cancel response
  cancel_run w none = (w, err invalid_request)
  cancel_run w (some r) =
      if blank r.run_id then (w, err invalid_request) else elim (store.get w r.run_id) [
        | err e ↦ (w, err (wrap "loopcore: load run for cancellation: %w" [] e))
        | ok none ↦ (w, err run_not_found)
        | ok (some run) ↦
            if is_terminal run.state
            then (w, ok (response r.run_id run))
            else persist w r.run_id (cancel r.reason run) "loopcore: persist cancellation: %w"
      ]
