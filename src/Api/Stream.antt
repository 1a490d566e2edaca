-- ===== src/Api/Stream.antt =====
-- internal/application/channel/subscribe_inbound.go: what a subscriber is sent.
use keelmesh.Prelude.{some}
use keelmesh.Channel.Types.{Inbound}
use keelmesh.Api.Messages.{InboundMessage, unix_milli}

-- `inboundMessage`.
unfoldable pub inbound_message : Inbound → InboundMessage
unfolding unix_milli
inbound_message m = record {
  channel_id = m.channel_id;
  message_id = m.message_id;
  chat_id = m.chat_id;
  sender_id = m.sender_id;
  sender_name = m.sender_name;
  sender = some m.sender;
  peer = some m.peer;
  content = m.content;
  metadata = m.metadata;
  received_at_ms = unix_milli m.received_at;
  media = m.media;
  session_key = m.session_key;
  media_scope = m.media_scope;
}
