-- ===== src/Api/Actions.antt =====
-- internal/application/channel: the handlers of typing and reaction actions, placeholders, streaming
-- messages, notifications and the preparation of an inbound message. A handler takes the fields that
-- it reads of its request, and answers with the field of its response; the log is not modelled.
use keelmesh.Prelude.{ℕ, String, Bool, true, Option, none, some, Result, ok, err, Error}
use keelmesh.Channel.Types.{Notification, InboundPreparation, PreparationReceipt}
use keelmesh.Channel.Repository.{Repository}
use keelmesh.Channel.Send.{send_notification}
use keelmesh.Channel.Actions.{
  start_typing, stop_typing, react_to_message, complete_reaction, expire_reaction, send_placeholder,
  start_streaming_message, update_streaming_message, finish_streaming_message,
}
use keelmesh.Channel.Prepare.{prepare_inbound}
use keelmesh.Api.Messages.{SendResponse}
use keelmesh.Api.Send.{send_response}

-- What most requests name: the channel, the target, the message or the reply, and a content or a
-- reaction.
pub record TargetRequest : Type 0 where
  pub channel_id : String
  pub target_id : String
  pub message_id : String
  pub content : String

-- `true` in the response, or the error.
abbrev pub done : {P : Type 0} → Repository P × Option Error → Repository P × Result Bool
done (r, none) = (r, ok true)
done (r, some e) = (r, err e)

module _ {P : Type 0} (r : Repository P) where
  unfoldable pub handle_start_typing : TargetRequest → ℕ → Repository P × Result String
  handle_start_typing q now = start_typing r q.channel_id q.target_id now

  unfoldable pub handle_stop_typing : String → Repository P × Bool
  handle_stop_typing action_id = stop_typing r action_id

  unfoldable pub handle_react : TargetRequest → ℕ → Repository P × Result String
  handle_react q now = react_to_message r q.channel_id q.target_id q.message_id q.content now

  unfoldable pub handle_complete_reaction : String → Repository P × Bool
  handle_complete_reaction action_id = complete_reaction r action_id

  unfoldable pub handle_expire_reaction : String → Repository P × Bool
  handle_expire_reaction action_id = expire_reaction r action_id

  unfoldable pub handle_placeholder : TargetRequest → Repository P × Result String
  handle_placeholder q = send_placeholder r q.channel_id q.target_id q.message_id q.content

  unfoldable pub handle_start_streaming : TargetRequest → Repository P × Result String
  handle_start_streaming q =
      start_streaming_message r q.channel_id q.target_id q.message_id q.content

  unfoldable pub handle_update_streaming : TargetRequest → Repository P × Result Bool
  handle_update_streaming q =
      done (update_streaming_message r q.channel_id q.target_id q.message_id q.content)

  unfoldable pub handle_finish_streaming : TargetRequest → ℕ → Repository P × Result Bool
  handle_finish_streaming q now =
      done (finish_streaming_message r q.channel_id q.target_id q.message_id q.content now)

  -- `SendNotification`, but for the ids of the mentions that are not valid.
  unfoldable pub handle_notification : Notification → ℕ → Repository P × Result SendResponse
  unfolding send_response
  handle_notification n now =
      let (r', answer) = send_notification r n now in
      elim answer [
        | err e ↦ (r', err e)
        | ok receipt ↦ (r', ok (send_response n.channel_id receipt))
      ]

  -- `PrepareInbound`: the receipt is given up where there is an error.
  unfoldable pub handle_prepare : InboundPreparation → ℕ → Repository P × Result PreparationReceipt
  handle_prepare m now =
      let (r', receipt, failure) = prepare_inbound r m now in
      elim failure [ some e ↦ (r', err e) | none ↦ (r', ok receipt) ]
