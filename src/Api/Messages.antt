-- ===== src/Api/Messages.antt =====
-- The messages of gen/channel/v1 that internal/application/channel and its callers read and build.
use keelmesh.Prelude.{ℕ, ◌/◌, eqb, String, Bool, Map, ℤ, pos, negsuc, Option, List, if◌then◌else◌}
use keelmesh.Channel.Types.{MediaPart, SenderInfo, Peer}

-- `InboundMessage`; a part of it has the fields of the domain's entity.
pub record InboundMessage : Type 0 where
  pub channel_id : String
  pub message_id : String
  pub chat_id : String
  pub sender_id : String
  pub sender_name : String
  pub sender : Option SenderInfo
  pub peer : Option Peer
  pub content : String
  pub metadata : Map String
  pub received_at_ms : ℤ
  pub media : List MediaPart
  pub session_key : String
  pub media_scope : String

abbrev pub nanos_per_milli : ℕ
nanos_per_milli = 1000000

-- `UnixMilli` of a time in nanoseconds since 1970; 0 stands for the zero time.
unfoldable pub unix_milli : ℕ → ℤ
unix_milli t = if eqb t 0 then negsuc 62135596799999 else pos (t / nanos_per_milli)

-- `ProgressSnapshot`, what `EditMessage` reads of it.
pub record ProgressSnapshot : Type 0 where
  pub status : String
  pub phase : String
  pub preview : String
  pub model : String
  pub iteration : ℤ
  pub omitted : ℤ
  pub elapsed_ms : ℤ
  pub updated_at : String

pub record EditMessageRequest : Type 0 where
  pub channel_id : String
  pub target_id : String
  pub message_id : String
  pub content : String
  pub state : String
  pub metadata : Map String
  pub progress : Option ProgressSnapshot

pub record EditMessageResponse : Type 0 where
  pub message_id : String
  pub state : String

-- `SendMessageResponse` and `SendMediaResponse` have the same fields.
pub record SendResponse : Type 0 where
  pub channel_id : String
  pub message_id : String
  pub accepted_at_ms : ℤ
  pub state : String

pub record SendMediaRequest : Type 0 where
  pub channel_id : String
  pub target_id : String
  pub parts : List MediaPart
  pub metadata : Map String
  pub idempotency_key : String

pub record DeliveryStatusResponse : Type 0 where
  pub message_id : String
  pub channel_id : String
  pub state : String
  pub accepted_at_ms : ℤ
  pub updated_at_ms : ℤ
  pub error : String

pub record ChannelInfo : Type 0 where
  pub id : String
  pub kind : String
  pub enabled : Bool
  pub running : Bool
  pub capabilities : List String
  pub state : String
  pub configured : Bool
  pub health_status : String
  pub health_message : String

pub record SendMessageRequest : Type 0 where
  pub channel_id : String
  pub target_id : String
  pub reply_to : String
  pub content : String
  pub metadata : Map String
  pub idempotency_key : String
