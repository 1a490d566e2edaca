-- ===== src/Agent/Service.antt =====
-- internal/application/agent/service.go over the memory event store. A subscriber's channel holds 16
-- events; a full one loses what is published.
use keelmesh.Prelude.{
  ℕ, String, Bool, true, false, ◌&&◌, ◌||◌, Map, insert, blank, Option, none, some, List, [], ◌∷◌,
  ◌++◌, length, ltb, leb, ◌==◌, if◌then◌else◌, Error, new,
}
use keelmesh.Agent.Events.{TaskEvent, EventStore, append, list}

-- A subscriber: its task, and what waits in its channel, oldest first.
pub record Listener : Type 0 where
  pub task_id : String
  pub queue : List TaskEvent

-- `Service`.
pub record Service : Type 0 where
  pub events : EventStore
  pub last_events : Map TaskEvent
  pub listeners : List Listener

pub record ExecuteTaskRequest : Type 0 where
  pub task_id : String
  pub channel_id : String
  pub target_id : String
  pub content : String

pub record ExecuteTaskResponse : Type 0 where
  pub task_id : String
  pub state : String
  pub content : String
  pub error : String

-- A configured backend, by its answer (a response may be nil), and for an `EventBackend` by the
-- events that it emits before it.
pub data Backend : Type 0 where
  plain : Option ExecuteTaskResponse → Option Error → Backend
  eventful : List TaskEvent → Option ExecuteTaskResponse → Option Error → Backend

abbrev pub capacity : ℕ
capacity = 16

abbrev pub ends : TaskEvent → Bool
ends e = e.state == "final" || e.state == "failed"

abbrev pub event : String → String → String → String → TaskEvent
event task_id state content error = record {
  task_id = task_id;
  event_id = "";
  sequence = 0;
  state = state;
  content = content;
  error = error;
  progress = none;
  occurred_at = 0;
}

-- The non-blocking send of `publish` to each listener of the task.
unfoldable pub offer_all : List Listener → TaskEvent → List Listener
offer_all [] e = []
offer_all (l ∷ rest) e =
    (if l.task_id == e.task_id && ltb (length l.queue) capacity
      then record l { queue = l.queue ++ e ∷ [] }
      else l)
    ∷ offer_all rest e

unfoldable pub publish : Service → TaskEvent → ℕ → Service
unfolding offer_all
publish s e now =
    if blank e.task_id
    then s
    else let (store, e') = append s.events e now in
      record {
        events = store;
        last_events = if ends e' then insert e'.task_id e' s.last_events else s.last_events;
        listeners = offer_all s.listeners e';
      }

unfoldable pub publish_all : Service → List TaskEvent → ℕ → Service
publish_all s [] now = s
publish_all s (e ∷ rest) now = publish_all (publish s e now) rest now

-- `responseEvent`.
unfoldable pub response_event :
    (Error → String) → String → Option ExecuteTaskResponse → Option Error → TaskEvent
response_event render id response (some e) = event id "failed" "" (render e)
response_event render id none none = event id "failed" "" "agentcore: execution response is nil"
response_event render id (some r) none = event id r.state r.content r.error

abbrev pub unavailable : ExecuteTaskRequest → ExecuteTaskResponse
unavailable r = record {
  task_id = r.task_id;
  state = "failed";
  content = "";
  error = "agentcore: execution backend is not configured";
}

abbrev pub missing_fields : Error
missing_fields = new "agentcore: task_id, channel_id, and target_id are required"

-- `ExecuteTask` after the request's check; the memory store accepts every event.
unfoldable pub run_backend :
    (Error → String)
    → Service
    → ExecuteTaskRequest
    → Option Backend
    → ℕ
    → Service × Option ExecuteTaskResponse × Option Error
unfolding response_event publish_all
run_backend render s r none now = (
  publish s (response_event render r.task_id (some (unavailable r)) none) now,
  some (unavailable r),
  none,
)
run_backend render s r (some (plain answer failure)) now =
    (publish s (response_event render r.task_id answer failure) now, answer, failure)
run_backend render s r (some (eventful events answer failure)) now = (
  publish (publish_all s events now) (response_event render r.task_id answer failure) now,
  answer,
  failure,
)

unfoldable pub execute_task :
    (Error → String)
    → Service
    → Option ExecuteTaskRequest
    → Option Backend
    → ℕ
    → Service × Option ExecuteTaskResponse × Option Error
unfolding run_backend
execute_task render s none backend now = (s, none, some missing_fields)
execute_task render s (some r) backend now =
    if blank r.task_id || blank r.channel_id || blank r.target_id
    then (s, none, some missing_fields)
    else run_backend render (publish s (event r.task_id "running" "" "") now) r backend now

-- The sends of a replay, from what waits in the channel: whether the loop comes to its end, what
-- waits then, and what is left to send. A send to a full channel waits for a receiver.
unfoldable pub send_replay :
    List TaskEvent → List TaskEvent → Bool × List TaskEvent × List TaskEvent
send_replay queue [] = (true, queue, [])
send_replay queue (e ∷ rest) =
    let sent = send_replay (queue ++ e ∷ []) rest in
    if ltb (length queue) capacity then sent else (false, queue, e ∷ rest)

-- `subscribe` with a replay of what is stored: the listener is registered, and gets the replay.
-- Where the loop waits, it does so with the service's lock held and before the channel is handed
-- out: nobody receives from it, and `subscribe` does not return (`none`).
unfoldable pub subscribe : Service → String → ℕ → Option Service
unfolding send_replay
subscribe s id n =
    let (through, queue, left) = send_replay [] (list s.events id n) in
    if through
    then some (record s { listeners = record { task_id = id; queue = queue } ∷ s.listeners })
    else none

-- The loop of `SubscribeTaskEvents` over the events that its channel delivers: what it sends.
unfoldable pub follow : ℕ → List TaskEvent → List TaskEvent
follow last [] = []
follow last (e ∷ rest) =
    let skipped = follow last rest in
    let later = follow (if ltb last e.sequence then e.sequence else last) rest in
    if ltb 0 e.sequence && leb e.sequence last
    then skipped
    else if ends e
    then e ∷ []
    else e ∷ later
