-- ===== src/Bridge/Inbound.antt =====
-- internal/bootstrap/loopcore/bridge.go: the inbound message that arrives, as the domain's.
pub mod Laws
use keelmesh.Prelude.{
  ℕ, ◌*◌, String, Map, insert, Option, none, some, [], ◌==◌, if◌then◌else◌, pos, pos_part, ltb_ℤ,
}
use keelmesh.Channel.Types.{Inbound, SenderInfo, Peer}
use keelmesh.Api.Messages.{InboundMessage, nanos_per_milli}

abbrev pub no_sender : SenderInfo
no_sender = record {
  platform = "";
  platform_id = "";
  canonical_id = "";
  username = "";
  display_name = "";
  avatar_url = "";
}

abbrev pub no_peer : Peer
no_peer = record { kind = ""; id = "" }

-- `inboundDomain`, at the clock's time `now`.
unfoldable pub inbound_domain : ℕ → InboundMessage → Inbound
inbound_domain now m = record {
  channel_id = m.channel_id;
  message_id = m.message_id;
  chat_id = m.chat_id;
  sender_id = m.sender_id;
  sender_name = m.sender_name;
  sender = elim m.sender [ none ↦ no_sender | some sender ↦ sender ];
  peer = elim m.peer [ none ↦ no_peer | some peer ↦ peer ];
  content = m.content;
  metadata = m.metadata;
  media = m.media;
  session_key = m.session_key;
  media_scope = m.media_scope;
  received_at =
      if ltb_ℤ (pos 0) m.received_at_ms then pos_part m.received_at_ms * nanos_per_milli else now;
}

-- `if value != "" { metadata[key] = value }`.
abbrev pub note : String → String → Map String → Map String
note key value metadata = if value == "" then metadata else insert key value metadata

-- `addInboundIdentityMetadata`.
unfoldable pub identity_metadata : Inbound → Map String → Map String
identity_metadata m metadata = note "media_scope" m.media_scope (
    note "session_key" m.session_key (
      note "peer.id" m.peer.id (
        note "peer.kind" m.peer.kind (
          note "sender.platform_id" m.sender.platform_id (
            note "sender.platform" m.sender.platform
              (note "sender.canonical_id" m.sender.canonical_id metadata))))))
