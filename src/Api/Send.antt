-- ===== src/Api/Send.antt =====
-- internal/application/channel: send_message.go, send_media.go, edit_message.go and
-- get_delivery_status.go, over the channel repository; `now` is the repository's clock. The log is
-- not modelled.
use keelmesh.Prelude.{
  ℕ, suc, String, Map, insert, Option, none, some, [], ◌∷◌, ℤ, pos, negsuc, decimal, concat, Result,
  ok, err, errorf,
}
use keelmesh.Channel.Types.{Outbound, OutboundMedia, Receipt}
use keelmesh.Channel.Repository.{Repository, delivery}
use keelmesh.Channel.Send.{send, send_media}
use keelmesh.Channel.Actions.{edit_message}
use keelmesh.Api.Messages.{
  unix_milli, SendMessageRequest, SendMediaRequest, SendResponse, EditMessageRequest,
  EditMessageResponse, ProgressSnapshot, DeliveryStatusResponse,
}

unfoldable pub outbound : SendMessageRequest → Outbound
outbound r = record {
  id = r.idempotency_key;
  channel_id = r.channel_id;
  target_id = r.target_id;
  reply_to = r.reply_to;
  content = r.content;
  metadata = r.metadata;
  idempotency_key = r.idempotency_key;
}

unfoldable pub outbound_media : SendMediaRequest → OutboundMedia
outbound_media r = record {
  id = r.idempotency_key;
  channel_id = r.channel_id;
  target_id = r.target_id;
  parts = r.parts;
  metadata = r.metadata;
  idempotency_key = r.idempotency_key;
}

unfoldable pub send_response : String → Receipt → SendResponse
unfolding unix_milli
send_response channel_id receipt = record {
  channel_id = channel_id;
  message_id = receipt.message_id;
  accepted_at_ms = unix_milli receipt.accepted_at;
  state = receipt.state;
}

-- `strconv.Itoa`.
abbrev pub itoa : ℤ → String
itoa (pos n) = decimal n
itoa (negsuc n) = concat ("-" ∷ decimal (suc n) ∷ [])

-- The metadata of an edit, with the progress where there is some.
unfoldable pub edit_metadata : Map String → Option ProgressSnapshot → Map String
edit_metadata metadata none = metadata
edit_metadata metadata (some p) = insert "progress.updated_at" p.updated_at (
    insert "progress.elapsed_ms" (itoa p.elapsed_ms) (
      insert "progress.omitted" (itoa p.omitted) (
        insert "progress.iteration" (itoa p.iteration) (
          insert "progress.model" p.model (
            insert "progress.preview" p.preview
              (insert "progress.phase" p.phase (insert "progress.status" p.status metadata)))))))

module _ {P : Type 0} where
  unfoldable pub send_message :
      Repository P → SendMessageRequest → ℕ → Repository P × Result SendResponse
  unfolding outbound send_response
  send_message r request now =
      let (r', answer) = send r (outbound request) now in
      elim answer [
        | err e ↦ (r', err e)
        | ok receipt ↦ (r', ok (send_response request.channel_id receipt))
      ]

  unfoldable pub send_media_message :
      Repository P → SendMediaRequest → ℕ → Repository P × Result SendResponse
  unfolding outbound_media send_response
  send_media_message r request now =
      let (r', answer) = send_media r (outbound_media request) now in
      elim answer [
        | err e ↦ (r', err e)
        | ok receipt ↦ (r', ok (send_response request.channel_id receipt))
      ]

  unfoldable pub edit :
      Repository P → EditMessageRequest → ℕ → Repository P × Result EditMessageResponse
  unfolding edit_metadata
  edit r request now =
      let (r', failure) =
        edit_message r request.channel_id request.target_id request.message_id request.content
          request.state (edit_metadata request.metadata request.progress) now in
      elim failure [
        | some e ↦ (r', err e)
        | none ↦ (r', ok (record { message_id = request.message_id; state = request.state }))
      ]

  unfoldable pub get_delivery_status : Repository P → String → Result DeliveryStatusResponse
  unfolding unix_milli
  get_delivery_status r id = elim (delivery r id) [
    | none ↦ err (errorf "channelcore: delivery %q not found" (id ∷ []))
    | some status ↦ ok (record {
      message_id = status.message_id;
      channel_id = status.channel_id;
      state = status.state;
      accepted_at_ms = unix_milli status.accepted_at;
      updated_at_ms = unix_milli status.updated_at;
      error = status.error;
    })
  ]
