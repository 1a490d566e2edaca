-- ===== src/Loop/Stored.antt =====
-- The invariant of internal/application/loop/service.go over the stored runs, and what no call
-- changes.
use keelmesh.Prelude.{
  String, true, false, ◌||◌, Map, ◌≡◌, refl, ap, ◌∙◌, subst, lookup, insert, lookup-insert,
  lookup-insert_ne, blank, Option, none, some, List, [], ◌∷◌, All, ◌==◌, eq_iff, if_cases,
  read_cases, result_cases, bind_ok, Bool-cases, inl, inr, ltb_ℤ, pos, Result, ok, arith,
}
use keelmesh.Loop.Types.{
  Step, Run, RunResponse, StepDefinition, StartRunRequest, AdvanceStepRequest, CancelRunRequest,
  is_terminal,
}
use keelmesh.Loop.Service.{
  memory_repository, queue_steps, queued_step, first_running, new_run, advance, cancel, persist,
  start_run, advance_step, cancel_run,
}
use keelmesh.Loop.Invariant.{IsValid, WithinLimit, running_of, advance-IsValid}

-- Every stored run is valid.
abbrev pub IsSound : Map Run → Type 0
IsSound runs = (id : String) (run : Run) → lookup id runs ≡ some run → IsValid run

insert-IsSound :
    (runs : Map Run) (id : String) (run : Run)
    → IsSound runs
    → IsValid run
    → IsSound (insert id run runs)
insert-IsSound runs id run h v j found e = elim (Bool-cases (id == j)) [
  | inl hit ↦ subst IsValid (ground (arith, lookup-insert id j run runs)) v
  | inr miss ↦ h j found (ground (arith, lookup-insert id j run runs))
]

queue_steps-limits :
    (ds : List (Option StepDefinition)) (steps : List Step)
    → queue_steps ds ≡ ok steps
    → All WithinLimit steps
unfolding queue_steps
queue_steps-limits [] steps e =
    let same : [] ≡ steps = ground arith in subst (All WithinLimit) same tt
queue_steps-limits (none ∷ ds) steps e = cc
queue_steps-limits (some d ∷ ds) steps e = elim (Bool-cases (blank d.id)) [
  | inl b ↦ cc b
  | inr b ↦
      let (more, f, g) =
        bind_ok (queue_steps ds) (λ s. ok (queued_step d ∷ s)) steps (ground arith) in
      let same : queued_step d ∷ more ≡ steps = ground arith in
      subst (All WithinLimit) same (λ l. ground arith, queue_steps-limits ds more f)
]

first_running-limits :
    (steps : List Step) → All WithinLimit steps → All WithinLimit (first_running steps)
first_running-limits [] h = tt
first_running-limits (s ∷ rest) h = h

new_run-IsValid :
    (r : StartRunRequest) (steps : List Step) → All WithinLimit steps → IsValid (new_run r steps)
unfolding new_run
new_run-IsValid r [] h = record {
  known = refl;
  limits = tt;
  current = λ c. absurd (ground (arith, eq_iff "final" "running"));
  ended = λ _. refl;
  failure = λ c. absurd (ground (arith, eq_iff "final" "failed"));
}
new_run-IsValid r (s ∷ rest) h = record {
  known = refl;
  limits = h;
  current = λ _. ground (arith, eq_iff s.id s.id);
  ended = λ c. absurd (ground (arith, eq_iff "running" "final"));
  failure = λ c. absurd (ground (arith, eq_iff "running" "failed"));
}

cancel-IsValid : (reason : String) (run : Run) → IsValid run → IsValid (cancel reason run)
unfolding cancel
cancel-IsValid reason run v = record {
  known = refl;
  limits = v.limits;
  current = λ c. absurd (ground (arith, eq_iff "cancelled" "running"));
  ended = λ c. absurd (ground (arith, eq_iff "cancelled" "final"));
  failure = λ c. absurd (ground (arith, eq_iff "cancelled" "failed"));
}

persist-IsSound :
    (runs : Map Run) (id : String) (run : Run) (failed : String)
    → IsSound runs
    → IsValid run
    → IsSound (persist memory_repository runs id run failed).0
unfolding persist memory_repository
persist-IsSound runs id run failed h v = insert-IsSound runs id run h v

-- What the memory repository hands out is what is stored.
get_stored :
    (runs : Map Run) (id : String) (run : Run)
    → memory_repository.get runs id ≡ ok (some run)
    → lookup id runs ≡ some run
unfolding memory_repository
get_stored runs id run e = cc

get_absent :
    (runs : Map Run) (id : String) → memory_repository.get runs id ≡ ok none → lookup id runs ≡ none
unfolding memory_repository
get_absent runs id e = cc

module _ (runs : Map Run) (sound : IsSound runs) where
  abbrev Sound : Map Run × Result RunResponse → Type 0
  Sound res = IsSound res.0

  -- Starting a run keeps every stored run valid.
  pub start_run-IsSound :
      (r : Option StartRunRequest) → IsSound (start_run memory_repository runs r).0
  unfolding start_run
  start_run-IsSound none = sound
  start_run-IsSound (some r) =
      if_cases Sound (blank r.run_id || blank r.task_id || blank r.input) (λ _. sound)
        λ _.
          result_cases Sound (queue_steps r.steps) (λ _ _. sound)
            λ steps f.
              read_cases Sound (memory_repository.get runs r.run_id) (λ _ _. sound)
                (λ _.
                  persist-IsSound runs r.run_id (new_run r steps) _ sound
                    (new_run-IsValid r steps (queue_steps-limits r.steps steps f)))
                λ _ _. sound

  -- Cancelling a run keeps every stored run valid.
  pub cancel_run-IsSound :
      (r : Option CancelRunRequest) → IsSound (cancel_run memory_repository runs r).0
  unfolding cancel_run
  cancel_run-IsSound none = sound
  cancel_run-IsSound (some r) =
      if_cases Sound (blank r.run_id) (λ _. sound)
        λ _.
          read_cases Sound (memory_repository.get runs r.run_id) (λ _ _. sound) (λ _. sound)
            λ run found.
              if_cases Sound (is_terminal run.state) (λ _. sound)
                λ _. persist-IsSound runs r.run_id (cancel r.reason run) _ sound (
                  cancel-IsValid r.reason run
                    (sound r.run_id run (get_stored runs r.run_id run found)))

  -- Advancing a step keeps every stored run valid.
  pub advance_step-IsSound :
      (r : Option AdvanceStepRequest) → IsSound (advance_step memory_repository runs r).0
  unfolding advance_step
  advance_step-IsSound none = sound
  advance_step-IsSound (some r) =
      if_cases Sound (blank r.run_id || blank r.step_id || ltb_ℤ r.iteration (pos 0)) (λ _. sound)
        λ _.
          read_cases Sound (memory_repository.get runs r.run_id) (λ _ _. sound) (λ _. sound)
            λ run found.
              let v = sound r.run_id run (get_stored runs r.run_id run found) in
              if_cases Sound (is_terminal run.state) (λ _. sound)
                λ live.
                  result_cases Sound (advance r run) (λ _ _. sound)
                    λ done e.
                      persist-IsSound runs r.run_id done.0 _ sound
                        (advance-IsValid r run done.0 done.1 v (running_of run v live) e)

-- The calls that write.
pub data Call : Type 0 where
  starts : Option StartRunRequest → Call
  advances : Option AdvanceStepRequest → Call
  cancels : Option CancelRunRequest → Call

unfoldable pub step : Map Run → Call → Map Run
step runs (starts r) = (start_run memory_repository runs r).0
step runs (advances r) = (advance_step memory_repository runs r).0
step runs (cancels r) = (cancel_run memory_repository runs r).0

unfoldable pub run_calls : Map Run → List Call → Map Run
unfolding step
run_calls runs [] = runs
run_calls runs (c ∷ cs) = run_calls (step runs c) cs

step-IsSound : (runs : Map Run) (c : Call) → IsSound runs → IsSound (step runs c)
unfolding step
step-IsSound runs (starts r) h = start_run-IsSound runs h r
step-IsSound runs (advances r) h = advance_step-IsSound runs h r
step-IsSound runs (cancels r) h = cancel_run-IsSound runs h r

run_calls-IsSound_from :
    (runs : Map Run) (cs : List Call) → IsSound runs → IsSound (run_calls runs cs)
unfolding run_calls
run_calls-IsSound_from runs [] h = h
run_calls-IsSound_from runs (c ∷ cs) h =
    run_calls-IsSound_from (step runs c) cs (step-IsSound runs c h)

-- After any calls on an empty store every stored run is valid: it is running or terminal; no step
-- has passed its iteration limit; a running run's current step is one of its steps; a final run has
-- no current step; and the error of a failed run is that of a failed step of it.
pub run_calls-IsValid :
    (cs : List Call) (id : String) (run : Run)
    → lookup id (run_calls [] cs) ≡ some run
    → IsValid run
unfolding lookup
run_calls-IsValid cs = run_calls-IsSound_from [] cs (λ id run e. cc)

module _ (runs : Map Run) (id : String) (run : Run) (e : lookup id runs ≡ some run)
    (t : is_terminal run.state ≡ true) where
  abbrev Kept : Map Run × Result RunResponse → Type 0
  Kept res = lookup id res.0 ≡ some run

  persist-Kept :
      (j : String) (other : Run) (failed : String)
      → (j ≡ id → ⊥)
      → Kept (persist memory_repository runs j other failed)
  unfolding persist memory_repository
  persist-Kept j other failed apart = lookup-insert_ne j id other runs apart ∙ e

  -- A run that is found and is not terminal is another run.
  apart_live :
      (j : String) (other : Run)
      → lookup j runs ≡ some other
      → is_terminal other.state ≡ false
      → j ≡ id
      → ⊥
  apart_live j other f live same = ground (arith, ap (λ k. lookup k runs) same)

  apart_absent : (j : String) → lookup j runs ≡ none → j ≡ id → ⊥
  apart_absent j f same = ground (arith, ap (λ k. lookup k runs) same)

  start_run-terminal : (r : Option StartRunRequest) → Kept (start_run memory_repository runs r)
  unfolding start_run
  start_run-terminal none = e
  start_run-terminal (some r) =
      if_cases Kept (blank r.run_id || blank r.task_id || blank r.input) (λ _. e)
        λ _.
          result_cases Kept (queue_steps r.steps) (λ _ _. e)
            λ steps _.
              read_cases Kept (memory_repository.get runs r.run_id) (λ _ _. e)
                (λ absent.
                  persist-Kept r.run_id _ _
                    (apart_absent r.run_id (get_absent runs r.run_id absent)))
                λ _ _. e

  advance_step-terminal :
      (r : Option AdvanceStepRequest) → Kept (advance_step memory_repository runs r)
  unfolding advance_step
  advance_step-terminal none = e
  advance_step-terminal (some r) =
      if_cases Kept (blank r.run_id || blank r.step_id || ltb_ℤ r.iteration (pos 0)) (λ _. e)
        λ _.
          read_cases Kept (memory_repository.get runs r.run_id) (λ _ _. e) (λ _. e)
            λ other found.
              if_cases Kept (is_terminal other.state) (λ _. e)
                λ live.
                  result_cases Kept (advance r other) (λ _ _. e)
                    λ done _.
                      persist-Kept r.run_id done.0 _
                        (apart_live r.run_id other (get_stored runs r.run_id other found) live)

  cancel_run-terminal : (r : Option CancelRunRequest) → Kept (cancel_run memory_repository runs r)
  unfolding cancel_run
  cancel_run-terminal none = e
  cancel_run-terminal (some r) =
      if_cases Kept (blank r.run_id) (λ _. e)
        λ _.
          read_cases Kept (memory_repository.get runs r.run_id) (λ _ _. e) (λ _. e)
            λ other found.
              if_cases Kept (is_terminal other.state) (λ _. e)
                λ live.
                  persist-Kept r.run_id (cancel r.reason other) _
                    (apart_live r.run_id other (get_stored runs r.run_id other found) live)

-- A terminal run is final for good: no call changes it.
pub step-terminal :
    (runs : Map Run) (c : Call) (id : String) (run : Run)
    → lookup id runs ≡ some run
    → is_terminal run.state ≡ true
    → lookup id (step runs c) ≡ some run
unfolding step
step-terminal runs (starts r) id run e t = start_run-terminal runs id run e t r
step-terminal runs (advances r) id run e t = advance_step-terminal runs id run e t r
step-terminal runs (cancels r) id run e t = cancel_run-terminal runs id run e t r
