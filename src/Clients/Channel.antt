-- ===== src/Clients/Channel.antt =====
-- internal/infrastructure/channelclient/client.go: the calls of ChannelCore by which GateCore delivers.
-- They are parameters, over the state `C` that they act on; only the error of an answer is read.
pub mod Laws
use keelmesh.Prelude.{
  String, Map, value_at, ◌||◌, Option, none, some, [], ◌∷◌, ◌==◌, if◌then◌else◌, Error, errorf,
  wrap,
}
use keelmesh.Gate.Types.{Task, ExecutionResult}
use keelmesh.Api.Messages.{EditMessageRequest, SendMessageRequest}
use keelmesh.Delivery.Outbox.{DeliveryClient}

pub record ChannelApi (C : Type 0) : Type 0 where
  pub edit_message : C → EditMessageRequest → C × Option Error
  pub send_message : C → SendMessageRequest → C × Option Error

-- The edit of a task's placeholder.
unfoldable pub placeholder_edit : Task → String → String → EditMessageRequest
placeholder_edit task content state = record {
  channel_id = task.channel_id;
  target_id = task.target_id;
  message_id = value_at "placeholder_message_id" task.metadata;
  content = content;
  state = state;
  metadata = [];
  progress = none;
}

-- The message that `Dispatch` sends where there is no placeholder.
unfoldable pub result_message : Task → String → SendMessageRequest
result_message task content = record {
  channel_id = task.channel_id;
  target_id = task.target_id;
  reply_to = "";
  content = content;
  metadata = ("task_id", task.id) ∷ ("x-request-id", task.id) ∷ ("x-idempotency-key", task.id) ∷ [];
  idempotency_key = task.id;
}

-- An answer with its error wrapped.
abbrev pub failing : {C : Type 0} → String → C × Option Error → C × Option Error
failing text (c, none) = (c, none)
failing text (c, some e) = (c, some (wrap text [] e))

module _ {C : Type 0} (api : ChannelApi C) where
  unfoldable pub dispatch : C → Task → ExecutionResult → C × Option Error
  unfolding placeholder_edit result_message
  dispatch c task result =
      if result.content == ""
      then (c, some (errorf "channelclient: agent result is empty" []))
      else if value_at "placeholder_message_id" task.metadata == ""
      then failing "channelclient: send task result: %w"
          (api.send_message c (result_message task result.content))
      else failing "channelclient: finalize placeholder: %w"
          (api.edit_message c (placeholder_edit task result.content "final"))

  unfoldable pub dispatch_progress : C → Task → String → String → C × Option Error
  unfolding placeholder_edit
  dispatch_progress c task state content =
      if value_at "placeholder_message_id" task.metadata == "" || content == ""
      then (c, none)
      else failing "channelclient: update progress placeholder: %w"
          (api.edit_message c (placeholder_edit task content state))

  abbrev pub delivery_client : DeliveryClient C
  delivery_client = record { dispatch = dispatch; dispatch_progress = dispatch_progress }
