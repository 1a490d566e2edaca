-- ===== src/Bridge/Project/Step.antt =====
-- One event of an agent on a run that internal/bootstrap/loopcore/bridge.go started.
use keelmesh.Prelude.{
  String, Bool, true, false, ◌||◌, ◌&&◌, not, Map, ◌≡◌, ◌⊎◌, inl, inr, refl, sym, ap, ◌∙◌, lookup,
  trim, insert, lookup-insert_self, blank, Option, none, some, List, [], ◌∷◌, ◌==◌, eq_iff,
  if◌then◌else◌, if_cases, Bool-cases, pos, ltb_ℤ, ok, arith, is_some,
}
use keelmesh.Agent.Events.{TaskEvent}
use keelmesh.Agent.Service.{ends}
use keelmesh.Loop.Types.{Step, Run, AdvanceStepRequest, is_terminal}
use keelmesh.Loop.Service.{
  memory_repository, advance_step, advance, index_of, fail_iteration, report, to_next, report_step,
  supported, over_limit, persist,
}
use keelmesh.Loop.Stored.{step, advances, step-terminal}
use keelmesh.Bridge.Project.{
  map_agent_step_state, step_state, step_iteration, advance_request, is_skipped,
  project_agent_events,
}

-- A running run of the bridge: one step of the agent, of at most one iteration.
pub record IsBridged (run : Run) : Type 0 where
  pub step : Step
  pub steps : run.steps ≡ step ∷ []
  pub id : step.id ≡ "agent"
  pub limit : step.max_iterations ≡ pos 1
  pub running : run.state ≡ "running"

-- The run after a step that was taken: it failed or ended, or it goes on.
abbrev After : AdvanceStepRequest → Run → Type 0
After r run =
    (is_terminal run.state ≡ true)
    ⊎ IsBridged run × ((r.state == "final" || r.state == "failed") ≡ false)

agent_named : blank "agent" ≡ false
unfolding trim
agent_named = refl

module _ (r : AdvanceStepRequest) (run : Run) (b : IsBridged run) (to : r.step_id ≡ "agent") where
  advance_bridged :
      supported r.state ≡ true
      → advance r run
        ≡ ok (
            if over_limit r b.step
            then (fail_iteration r run 0 b.step, true)
            else (report r run 0 b.step, false))
  unfolding advance index_of
  advance_bridged good = ground (arith, b.steps, b.id, to, eq_iff b.step.id r.step_id)

  abbrev outcome : Run
  outcome = if over_limit r b.step then fail_iteration r run 0 b.step else report r run 0 b.step

  stepped :
      (runs : Map Run)
      → lookup r.run_id runs ≡ some run
      → blank r.run_id ≡ false
      → supported r.state ≡ true
      → ltb_ℤ r.iteration (pos 0) ≡ false
      → (advance_step memory_repository runs (some r)).0 ≡ insert r.run_id outcome runs
  unfolding advance_step memory_repository persist
  stepped runs found given good count =
      let named = ap (λ k. blank k) to ∙ agent_named in
      let live : is_terminal run.state ≡ false = ap is_terminal b.running in
      elim (Bool-cases (over_limit r b.step)) [
        | inl over ↦
            let done : advance r run ≡ ok (fail_iteration r run 0 b.step, true) =
              advance_bridged good ∙ rw over refl in
            ground (arith, found, given, count, named, live, done, over)
        | inr within ↦
            let done : advance r run ≡ ok (report r run 0 b.step, false) =
              advance_bridged good ∙ rw within refl in
            ground (arith, found, given, count, named, live, done, within)
      ]

  pub over-outcome :
      over_limit r b.step ≡ true
      → (outcome.state ≡ "failed") × (outcome.error ≡ "maximum iterations exceeded")
  unfolding fail_iteration
  over-outcome over = ground (arith, over)

  outcome-After : supported r.state ≡ true → After r outcome
  unfolding fail_iteration report to_next
  outcome-After good = elim (Bool-cases (over_limit r b.step)) [
    | inl over ↦ inl (ap is_terminal (over-outcome over).0)
    | inr within ↦ elim (Bool-cases (r.state == "final" || r.state == "failed")) [
      | inl end ↦ elim (Bool-cases (r.state == "failed")) [
        | inl broken ↦
            let state : outcome.state ≡ "failed" = ground (arith, within, broken) in
            inl (ap is_terminal state)
        | inr other ↦
            let state : outcome.state ≡ "final" = ground (arith, within, end, other, b.steps) in
            inl (ap is_terminal state)
      ]
      | inr on ↦ inr (
        record {
          step = report_step r b.step;
          steps = ground (arith, within, on, b.steps);
          id = b.id;
          limit = b.limit;
          running = ground (arith, within, on, b.running);
        },
        on,
      )
    ]
  ]

-- A terminal run is not touched by later events.
pub terminal_kept :
    (runs : Map Run) (id j : String) (run : Run) (es : List (Option TaskEvent))
    → lookup id runs ≡ some run
    → is_terminal run.state ≡ true
    → lookup id (project_agent_events memory_repository runs j es) ≡ some run
unfolding project_agent_events step
terminal_kept runs id j run [] found t = found
terminal_kept runs id j run (none ∷ rest) found t = found
terminal_kept runs id j run (some e ∷ rest) found t =
    let r = some (advance_request j e) in
    let runs' = (advance_step memory_repository runs r).0 in
    let found' : lookup id runs' ≡ some run = step-terminal runs (advances r) id run found t in
    if_cases (λ (m : Map Run). lookup id m ≡ some run) (is_skipped e)
      (λ _. terminal_kept runs id j run rest found t)
      λ _.
        if_cases (λ (m : Map Run). lookup id m ≡ some run) (ends e) (λ _. found')
          λ _. terminal_kept runs' id j run rest found' t

map_agent_step_state-supported : (state : String) → supported (map_agent_step_state state) ≡ true
unfolding map_agent_step_state
map_agent_step_state-supported state =
    if_cases (λ s. supported s ≡ true) (state == "final" || state == "failed")
      (λ h. ground (arith, h)) λ _. refl

request_supported : (id : String) (e : TaskEvent) → supported (advance_request id e).state ≡ true
unfolding advance_request
request_supported id e = map_agent_step_state-supported (step_state e)

abbrev is_end : String → Bool
is_end state = state == "final" || state == "failed"

is_end-map : (state : String) → is_end (map_agent_step_state state) ≡ is_end state
unfolding map_agent_step_state
is_end-map state = if_cases (λ s. is_end s ≡ is_end state) (is_end state) (λ _. refl) λ h. sym h

is_end-step_state : (e : TaskEvent) → is_end (step_state e) ≡ ends e
unfolding step_state
is_end-step_state e =
    if_cases (λ s. is_end s ≡ ends e) (is_some e.progress && not (ends e)) (λ h. ground (arith, h))
      λ _. refl

request_ends : (id : String) (e : TaskEvent) → is_end (advance_request id e).state ≡ ends e
unfolding advance_request
request_ends id e = is_end-map (step_state e) ∙ is_end-step_state e

running_on : (state : String) → is_end state ≡ true → (state == "running") ≡ false
running_on state h = ground (
  arith,
  h,
  eq_iff state "running",
  eq_iff state "final",
  eq_iff state "failed",
  eq_iff "final" "running",
  eq_iff "failed" "running",
)

pub skipped_on : (e : TaskEvent) → ends e ≡ true → is_skipped e ≡ false
unfolding is_skipped
skipped_on e last = ground (arith, running_on (step_state e) (is_end-step_state e ∙ last))

pub request_step : (id : String) (e : TaskEvent) → (advance_request id e).step_id ≡ "agent"
unfolding advance_request
request_step id e = refl

request_run : (id : String) (e : TaskEvent) → (advance_request id e).run_id ≡ id
unfolding advance_request
request_run id e = refl

pub request_count :
    (id : String) (e : TaskEvent) → (advance_request id e).iteration ≡ step_iteration e
unfolding advance_request
request_count id e = refl

module _ (id : String) (given : blank id ≡ false) (e : TaskEvent) where
  abbrev pub advanced : Map Run → Map Run
  advanced runs = (advance_step memory_repository runs (some (advance_request id e))).0

  uncounted : (runs : Map Run) → ltb_ℤ (step_iteration e) (pos 0) ≡ true → advanced runs ≡ runs
  unfolding advance_step
  uncounted runs negative = ground (arith, negative, request_count id e)

  module _ (runs : Map Run) (run : Run) (b : IsBridged run)
      (found : lookup id runs ≡ some run) where
    abbrev pub next : Run
    next = outcome (advance_request id e) run b (request_step id e)

    pub counted : ltb_ℤ (step_iteration e) (pos 0) ≡ false → lookup id (advanced runs) ≡ some next
    counted count =
        let r = advance_request id e in
        let same = request_run id e in
        let done =
          stepped r run b (request_step id e) runs (ap (λ k. lookup k runs) same ∙ found)
            (ap (λ k. blank k) same ∙ given) (request_supported id e)
            (ap (λ i. ltb_ℤ i (pos 0)) (request_count id e) ∙ count) in
        ap (lookup id) done
        ∙ ap (λ k. lookup id (insert k next runs)) same
        ∙ lookup-insert_self id next runs

    pub ended :
        ends e ≡ true → ltb_ℤ (step_iteration e) (pos 0) ≡ false → is_terminal next.state ≡ true
    ended last count =
        elim (outcome-After (advance_request id e) run b (request_step id e)
          (request_supported id e)) [
            | inl t ↦ t
            | inr (_, on) ↦ absurd (ground (arith, on, request_ends id e, last))
          ]

    pub lives_on :
        (run' : Run) × (lookup id (advanced runs) ≡ some run')
        × ((is_terminal run'.state ≡ true) ⊎ IsBridged run')
    lives_on = elim (Bool-cases (ltb_ℤ (step_iteration e) (pos 0))) [
      | inl negative ↦ (run, ap (lookup id) (uncounted runs negative) ∙ found, inr b)
      | inr count ↦ (
        next,
        counted count,
        elim (outcome-After (advance_request id e) run b (request_step id e)
            (request_supported id e)) [ inl t ↦ inl t | inr (b', _) ↦ inr b' ],
      )
    ]
