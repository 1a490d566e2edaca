-- ===== src/Agent/Backends.antt =====
-- internal/application/agent: echo_backend.go and openai_backend.go. The JSON encoding and the HTTP call
-- of the model are parameters.
use keelmesh.Prelude.{
  ℕ, String, Bool, ◌||◌, trim, blank, concat, Option, none, some, List, [], ◌∷◌, leb, ltb, ◌==◌,
  if◌then◌else◌, pos, Result, ok, err, Error, errorf, wrap,
}
use keelmesh.Agent.Events.{TaskEvent}
use keelmesh.Agent.Service.{ExecuteTaskRequest, ExecuteTaskResponse, event}

-- The event that both backends publish before they execute.
abbrev pub first_event : String → String → TaskEvent
first_event task_id preview = record (event task_id "progress" "" "") {
  progress = some (record { status = "running"; preview = preview; iteration = pos 0 });
}

abbrev pub final_response : String → String → ExecuteTaskResponse
final_response task_id content = record {
  task_id = task_id;
  state = "final";
  content = content;
  error = "";
}

-- `EchoBackend.ExecuteWithEvents`, with the error of the context.
unfoldable pub echo :
    Option Error → ExecuteTaskRequest → List TaskEvent × Result ExecuteTaskResponse
echo (some e) r =
    (first_event r.task_id "processing" ∷ [], err (wrap "echo backend: context canceled: %w" [] e))
echo none r =
    let answer : Result ExecuteTaskResponse =
      if blank r.content
      then err (errorf "echo backend: content is empty" [])
      else ok (final_response r.task_id (concat ("[echo] " ∷ trim r.content ∷ []))) in
    (first_event r.task_id "processing" ∷ [], answer)

pub record ChatMessage : Type 0 where
  pub role : String
  pub content : String

pub record ChatRequest : Type 0 where
  pub model : String
  pub messages : List ChatMessage

-- `openAIChatResponse`; of a choice, its message.
pub record ChatResponse : Type 0 where
  pub choices : List ChatMessage
  pub error : Option String

-- `OpenAIBackend`, and what it calls: whether a base URL ends in "/v1", the encoding of a request, the
-- building of an HTTP request, the call and the read of the body, and its decoding.
pub record Model : Type 0 where
  pub base_url : String
  pub model : String
  pub has_version : Bool
  pub marshal : ChatRequest → Result String
  pub build : String → String → Option Error
  pub call : String → String → Result (ℕ × String × Result String)
  pub unmarshal : String → Result ChatResponse

abbrev pub endpoint : Model → String
endpoint m =
    if m.has_version
    then concat (m.base_url ∷ "/chat/completions" ∷ [])
    else concat (m.base_url ∷ "/v1/chat/completions" ∷ [])

-- The message of a response with another status than 2xx.
abbrev pub failure_message : String → ChatResponse → String
failure_message status r = elim r.error [
  | none ↦ status
  | some message ↦ if message == "" then status else message
]

-- The content of the first choice.
abbrev pub first_content : ChatResponse → String
first_content r = elim r.choices [ [] ↦ "" | choice ∷ _ ↦ choice.content ]

-- `execute`, from the decoded response on.
unfoldable pub read_response : String → ℕ → String → ChatResponse → Result ExecuteTaskResponse
read_response task_id code status r =
    if ltb code 200 || leb 300 code
    then err (errorf "agentcore: model returned %s: %s" (status ∷ failure_message status r ∷ []))
    else if blank (first_content r)
    then err (errorf "agentcore: model response contains no assistant content" [])
    else ok (final_response task_id (first_content r))

-- `execute`, from the HTTP request on.
unfoldable pub call_model : Model → String → String → Result ExecuteTaskResponse
unfolding read_response
call_model m task_id payload = elim (m.build (endpoint m) payload) [
  | some e ↦ err (wrap "agentcore: build model request: %w" [] e)
  | none ↦ elim (m.call (endpoint m) payload) [
    | err e ↦ err (wrap "agentcore: call model: %w" [] e)
    | ok (code, status, err e) ↦ err (wrap "agentcore: read model response: %w" [] e)
    | ok (code, status, ok body) ↦ elim (m.unmarshal body) [
      | err e ↦ err (wrap "agentcore: decode model response: %w" [] e)
      | ok r ↦ read_response task_id code status r
    ]
  ]
]

-- `OpenAIBackend.Execute`.
unfoldable pub execute : Model → ExecuteTaskRequest → Result ExecuteTaskResponse
unfolding call_model
execute m r =
    if blank r.content
    then err (errorf "agentcore: model input is empty" [])
    else elim (m.marshal (record {
      model = m.model;
      messages = record { role = "user"; content = trim r.content } ∷ [];
    })) [
      | err e ↦ err (wrap "agentcore: encode model request: %w" [] e)
      | ok payload ↦ call_model m r.task_id payload
    ]

-- `OpenAIBackend.ExecuteWithEvents`.
unfoldable pub execute_with_events :
    Model → ExecuteTaskRequest → List TaskEvent × Result ExecuteTaskResponse
unfolding execute
execute_with_events m r = (first_event r.task_id "calling model" ∷ [], execute m r)
