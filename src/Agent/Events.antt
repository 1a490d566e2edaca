-- ===== src/Agent/Events.antt =====
-- internal/application/agent/events.go: the memory event store. It numbers the events of a task from
-- 1. The clock is an argument.
use keelmesh.Prelude.{
  ℕ, ◌+◌, ℤ, String, Map, lookup, insert, decimal, concat, Option, none, some, List, [], ◌∷◌, ◌++◌,
  length, ltb, if◌then◌else◌,
}

-- What is read of `ProgressSnapshot` of gen/agent/v1.
pub record Progress : Type 0 where
  pub status : String
  pub preview : String
  pub iteration : ℤ

-- `TaskEvent` of gen/agent/v1; its progress may be nil.
pub record TaskEvent : Type 0 where
  pub task_id : String
  pub event_id : String
  pub sequence : ℕ
  pub state : String
  pub content : String
  pub error : String
  pub progress : Option Progress
  pub occurred_at : ℕ

-- `memoryEventStore`.
abbrev pub EventStore : Type 0
EventStore = Map (List TaskEvent)

unfoldable pub events_of : EventStore → String → List TaskEvent
events_of store id = elim (lookup id store) [ none ↦ [] | some items ↦ items ]

-- The event as `Append` numbers and dates it.
unfoldable pub number : TaskEvent → ℕ → ℕ → TaskEvent
number e sequence now = record e {
  sequence = sequence;
  event_id = concat (e.task_id ∷ "-" ∷ decimal sequence ∷ []);
  occurred_at = now;
}

unfoldable pub append : EventStore → TaskEvent → ℕ → EventStore × TaskEvent
unfolding events_of number
append store e now =
    let items = events_of store e.task_id in
    let e' = number e (length items + 1) now in (insert e.task_id (items ++ e' ∷ []) store, e')

-- The loop of `List`.
unfoldable pub after : ℕ → List TaskEvent → List TaskEvent
after n [] = []
after n (e ∷ rest) = let later = after n rest in if ltb n e.sequence then e ∷ later else later

unfoldable pub list : EventStore → String → ℕ → List TaskEvent
unfolding events_of after
list store id n = after n (events_of store id)
