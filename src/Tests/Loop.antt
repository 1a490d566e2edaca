-- ===== src/Tests/Loop.antt =====
-- The theorems on internal/application/loop at concrete inputs.
use keelmesh.Prelude.{◌≡◌, refl, lookup, trim, insert, Map, some, [], ◌∷◌, List, pos}
use keelmesh.Loop.Types.{Run, StartRunRequest, AdvanceStepRequest}
use keelmesh.Loop.Service.{memory_repository, start_run, advance_step}
use keelmesh.Loop.Invariant.{IsValid}
use keelmesh.Loop.Stored.{Call, starts, advances, step, run_calls, run_calls-IsValid, step-terminal}

abbrev start : StartRunRequest
start = record {
  run_id = "r1";
  task_id = "t1";
  channel_id = "ops";
  target_id = "room";
  input = "check";
  metadata = [];
  steps =
      some (record { id = "plan"; kind = "model"; name = "plan"; max_iterations = pos 2 })
      ∷ some (record { id = "act"; kind = "tool"; name = "act"; max_iterations = pos 0 })
      ∷ [];
}

abbrev advance_plan : AdvanceStepRequest
advance_plan = record {
  run_id = "r1";
  step_id = "plan";
  state = "final";
  output = "planned";
  error = "";
  iteration = pos 1;
}

abbrev calls : List Call
calls = starts (some start) ∷ advances (some advance_plan) ∷ []

abbrev planned : Run
planned = record {
  task_id = "t1";
  channel_id = "ops";
  target_id = "room";
  input = "check";
  metadata = [];
  state = "running";
  current_step_id = "act";
  iteration = pos 1;
  output = "planned";
  error = "";
  steps =
      record {
        id = "plan";
        kind = "model";
        name = "plan";
        state = "final";
        iteration = pos 1;
        max_iterations = pos 2;
        output = "planned";
        error = "";
      }
      ∷ record {
        id = "act";
        kind = "tool";
        name = "act";
        state = "running";
        iteration = pos 0;
        max_iterations = pos 0;
        output = "";
        error = "";
      }
      ∷ [];
}

calls_stored : lookup "r1" (run_calls [] calls) ≡ some planned
unfolding run_calls lookup advance_step trim memory_repository start_run insert
calls_stored = refl

run_calls-IsValid_example : IsValid planned
run_calls-IsValid_example = run_calls-IsValid calls "r1" planned calls_stored

abbrev ended : Run
ended = record planned { state = "cancelled"; error = "cancelled by operator" }

abbrev runs : Map Run
runs = ("r1", ended) ∷ []

step-terminal_example : lookup "r1" (step runs (advances (some advance_plan))) ≡ some ended
unfolding lookup
step-terminal_example = step-terminal runs (advances (some advance_plan)) "r1" ended refl refl
