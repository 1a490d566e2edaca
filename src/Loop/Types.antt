-- ===== src/Loop/Types.antt =====
-- The data of internal/application/loop/service.go, and the messages of gen/loop/v1 that it reads
-- and builds.
use keelmesh.Prelude.{String, Map, ℤ, Option, List, Result, Error, ◌||◌, Bool, ◌==◌}

-- `Step`; the 32-bit numbers are integers within their range.
pub record Step : Type 0 where
  pub id : String
  pub kind : String
  pub name : String
  pub state : String
  pub iteration : ℤ
  pub max_iterations : ℤ
  pub output : String
  pub error : String

pub record Run : Type 0 where
  pub task_id : String
  pub channel_id : String
  pub target_id : String
  pub input : String
  pub metadata : Map String
  pub state : String
  pub current_step_id : String
  pub iteration : ℤ
  pub output : String
  pub error : String
  pub steps : List Step

pub record StepDefinition : Type 0 where
  pub id : String
  pub kind : String
  pub name : String
  pub max_iterations : ℤ

-- A definition that is `nil` is `none`.
pub record StartRunRequest : Type 0 where
  pub run_id : String
  pub task_id : String
  pub channel_id : String
  pub target_id : String
  pub input : String
  pub metadata : Map String
  pub steps : List (Option StepDefinition)

pub record AdvanceStepRequest : Type 0 where
  pub run_id : String
  pub step_id : String
  pub state : String
  pub output : String
  pub error : String
  pub iteration : ℤ

pub record CancelRunRequest : Type 0 where
  pub run_id : String
  pub reason : String

pub record StepStatus : Type 0 where
  pub id : String
  pub kind : String
  pub name : String
  pub state : String
  pub iteration : ℤ
  pub output : String
  pub error : String

pub record RunResponse : Type 0 where
  pub run_id : String
  pub task_id : String
  pub channel_id : String
  pub target_id : String
  pub state : String
  pub current_step_id : String
  pub iteration : ℤ
  pub output : String
  pub error : String
  pub steps : List StepStatus

-- `RunRepository` over a stored world `W`.
pub record RunRepository (W : Type 0) : Type 0 where
  pub get : W → String → Result (Option Run)
  pub put : W → String → Run → W × Option Error

-- The test that the handlers write out for the three terminal states.
abbrev pub is_terminal : String → Bool
is_terminal state = state == "final" || state == "failed" || state == "cancelled"
