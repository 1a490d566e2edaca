-- ===== src/Gate/Types.antt =====
-- The data of internal/application/gate: task records, audit events, requests and responses
-- (service.go, audit.go, and the messages of gen/gate/v1 that the handlers read and build).
use keelmesh.Prelude.{ℕ, String, Bool, Map, ℤ, ◌||◌, ◌==◌}

-- `TaskRecord`. The 64-bit numbers are integers within their range.
pub record TaskRecord : Type 0 where
  pub channel_id : String
  pub target_id : String
  pub content : String
  pub metadata : Map String
  pub error : String
  pub result : String
  pub progress : String
  pub progress_state : String
  pub state : String
  pub last_sequence : ℤ
  pub last_event_id : String
  pub attempt : ℤ
  pub max_attempts : ℤ
  pub max_wall_time_ms : ℤ
  pub require_approval : Bool
  pub approval_granted : Bool

pub record TaskEntry : Type 0 where
  pub id : String
  pub task : TaskRecord

-- `Task`, the input of an executor.
pub record Task : Type 0 where
  pub id : String
  pub channel_id : String
  pub target_id : String
  pub content : String
  pub metadata : Map String
  pub event_sequence : ℤ

pub record ExecutionResult : Type 0 where
  pub content : String

-- `AuditEvent`. An empty `id` and a zero `occurred_at` are filled in by the audit store.
pub record AuditEvent : Type 0 where
  pub id : String
  pub task_id : String
  pub action : String
  pub from_state : String
  pub to_state : String
  pub reason : String
  pub occurred_at : ℕ

-- An event as the service writes it, `AuditEvent{TaskID: …, …}`.
abbrev pub audit_event : String → String → String → String → String → AuditEvent
audit_event task_id action from_state to_state reason = record {
  id = "";
  task_id = task_id;
  action = action;
  from_state = from_state;
  to_state = to_state;
  reason = reason;
  occurred_at = 0;
}

-- `taskOptions`.
pub record TaskOptions : Type 0 where
  pub require_approval : Bool
  pub max_attempts : ℤ
  pub max_wall_time_ms : ℤ

-- The test that the handlers write out for the three terminal states.
abbrev pub is_terminal : String → Bool
is_terminal state = state == "final" || state == "failed" || state == "cancelled"

pub record DispatchResponse : Type 0 where
  pub task_id : String
  pub state : String
  pub accepted : Bool
  pub reason : String

pub record TaskStatusResponse : Type 0 where
  pub task_id : String
  pub channel_id : String
  pub target_id : String
  pub state : String
  pub error : String
  pub result_content : String
  pub progress_content : String
  pub progress_state : String

pub record ProjectTaskEventRequest : Type 0 where
  pub task_id : String
  pub event_id : String
  pub sequence : ℤ
  pub state : String
  pub content : String
  pub error : String
  pub progress_state : String
  pub progress_content : String

pub record ProjectTaskEventResponse : Type 0 where
  pub applied : Bool
  pub duplicate : Bool
  pub reason : String
  pub state : String
  pub sequence : ℤ

-- `ResumeTaskRequest`, `ApproveTaskRequest` and `CancelTaskRequest` have the same two fields.
pub record TaskRequest : Type 0 where
  pub task_id : String
  pub reason : String

pub record IngestInboundRequest : Type 0 where
  pub request_id : String
  pub channel_id : String
  pub target_id : String
  pub message_id : String
  pub content : String
  pub metadata : Map String

pub record DispatchTaskRequest : Type 0 where
  pub task_id : String
  pub channel_id : String
  pub target_id : String
  pub content : String
  pub metadata : Map String
  pub require_approval : Bool
  pub max_attempts : ℤ
  pub max_wall_time_ms : ℤ

pub record AuthorizeOutboundRequest : Type 0 where
  pub request_id : String
  pub task_id : String
  pub agent_id : String
  pub channel_id : String
  pub target_id : String
  pub metadata : Map String

pub record AuthorizeOutboundResponse : Type 0 where
  pub request_id : String
  pub task_id : String
  pub agent_id : String
  pub metadata : Map String
  pub allowed : Bool
  pub reason : String
