-- ===== src/Bridge/Project/Laws.antt =====
-- A run that internal/bootstrap/loopcore/bridge.go starts, under the events of its agent.
use keelmesh.Prelude.{
  String, true, false, Map, ◌≡◌, inl, inr, ap, lookup, blank, Option, some, List, [], ◌∷◌, ◌++◌,
  map, All, if_cases, pos, ltb_ℤ, arith,
}
use keelmesh.Agent.Events.{TaskEvent, Progress}
use keelmesh.Agent.Service.{ends}
use keelmesh.Loop.Types.{Run, is_terminal}
use keelmesh.Loop.Service.{memory_repository, over_limit}
use keelmesh.Bridge.Project.{step_iteration, advance_request, is_skipped, project_agent_events}
use keelmesh.Bridge.Project.Step.{
  IsBridged, over-outcome, terminal_kept, skipped_on, request_step, request_count, advanced, next,
  counted, ended, lives_on,
}

-- A stored run that is terminal.
abbrev pub IsEnded : Map Run → String → Type 0
IsEnded runs id = (run : Run) × (lookup id runs ≡ some run) × (is_terminal run.state ≡ true)

-- The run of a task ends with its agent: where the memory repository has under an id that is not
-- blank a running run of the bridge, and the stream brings any events that do not end the task and
-- then one that does, with an iteration that is not negative, the stored run is terminal, whatever
-- follows on the stream.
pub project_agent_events-IsEnded :
    (runs : Map Run) (id : String) (run : Run) (before : List TaskEvent) (e : TaskEvent)
    (after : List (Option TaskEvent))
    → blank id ≡ false
    → lookup id runs ≡ some run
    → IsBridged run
    → All (λ d. ends d ≡ false) before
    → ends e ≡ true
    → ltb_ℤ (step_iteration e) (pos 0) ≡ false
    → IsEnded
        (project_agent_events memory_repository runs id (map some before ++ some e ∷ after))
        id
unfolding project_agent_events
project_agent_events-IsEnded runs id run [] e after given found b h last count =
    if_cases (λ (m : Map Run). IsEnded m id) (is_skipped e)
      (λ s. absurd (ground (arith, s, skipped_on e last)))
      λ _.
        if_cases (λ (m : Map Run). IsEnded m id) (ends e)
          (λ _. (
            next id given e runs run b found,
            counted id given e runs run b found count,
            ended id given e runs run b found last count,
          ))
          λ on. absurd (ground (arith, on, last))
project_agent_events-IsEnded runs id run (d ∷ ds) e after given found b h last count =
    if_cases (λ (m : Map Run). IsEnded m id) (is_skipped d)
      (λ _. project_agent_events-IsEnded runs id run ds e after given found b h.1 last count)
      λ _.
        if_cases (λ (m : Map Run). IsEnded m id) (ends d) (λ end. absurd (ground (arith, end, h.0)))
          λ _.
            let (run', found', either) = lives_on id given d runs run b found in
            let runs' = advanced id given d runs in
            elim either [
              | inl t ↦
                  (run', terminal_kept runs' id id run' (map some ds ++ some e ∷ after) found' t, t)
              | inr b' ↦
                  project_agent_events-IsEnded runs' id run' ds e after given found' b' h.1 last
                    count
            ]

-- A stored run that failed by its iterations.
abbrev pub IsOverrun : Map Run → String → Type 0
IsOverrun runs id =
    (run : Run) × (lookup id runs ≡ some run)
    × (run.state ≡ "failed")
    × (run.error ≡ "maximum iterations exceeded")

progress_counts :
    (e : TaskEvent) (p : Progress)
    → e.progress ≡ some p
    → ltb_ℤ (pos 1) p.iteration ≡ true
    → (ltb_ℤ (step_iteration e) (pos 0) ≡ false) × (ltb_ℤ (pos 1) (step_iteration e) ≡ true)
unfolding step_iteration
progress_counts e p there many = (ground (arith, there, many), ground (arith, there, many))

progress_kept : (e : TaskEvent) (p : Progress) → e.progress ≡ some p → is_skipped e ≡ false
unfolding is_skipped
progress_kept e p there = ground (arith, there)

overruns :
    (id : String) (e : TaskEvent) (run : Run) (b : IsBridged run)
    → ltb_ℤ (pos 1) (step_iteration e) ≡ true
    → over_limit (advance_request id e) b.step ≡ true
overruns id e run b many = ground (arith, many, b.limit, request_count id e)

-- Where the memory repository has under an id that is not blank a running run of the bridge, a
-- first event with progress of an iteration above 1 fails the run: whatever its state, and
-- whatever the agent sends afterwards, the stored run has failed with the maximum of its
-- iterations exceeded.
pub project_agent_events-IsOverrun :
    (runs : Map Run) (id : String) (run : Run) (e : TaskEvent) (p : Progress)
    (after : List (Option TaskEvent))
    → blank id ≡ false
    → lookup id runs ≡ some run
    → IsBridged run
    → e.progress ≡ some p
    → ltb_ℤ (pos 1) p.iteration ≡ true
    → IsOverrun (project_agent_events memory_repository runs id (some e ∷ after)) id
unfolding project_agent_events
project_agent_events-IsOverrun runs id run e p after given found b there many =
    let (count, more) = progress_counts e p there many in
    let run' = next id given e runs run b found in
    let found' = counted id given e runs run b found count in
    let (state, error) =
      over-outcome (advance_request id e) run b (request_step id e) (overruns id e run b more) in
    if_cases (λ (m : Map Run). IsOverrun m id) (is_skipped e)
      (λ s. absurd (ground (arith, s, progress_kept e p there)))
      λ _.
        if_cases (λ (m : Map Run). IsOverrun m id) (ends e) (λ _. (run', found', state, error))
          λ _. (
            run',
            terminal_kept (advanced id given e runs) id id run' after found' (ap is_terminal state),
            state,
            error,
          )
