-- ===== src/Channel/Types.antt =====
-- The data of internal/domain/channel.go. Times are nanoseconds; the zero time is 0.
use keelmesh.Prelude.{ℕ, String, Bool, Map, Option, List, Result, Error}

pub record GroupTriggerPolicy : Type 0 where
  pub mention_only : Bool
  pub prefixes : List String

-- `DefinitionEntity`, but for the rate and the burst of the limiter.
pub record Definition : Type 0 where
  pub id : String
  pub kind : String
  pub enabled : Bool
  pub capabilities : List String
  pub group_trigger : GroupTriggerPolicy
  pub queue_size : ℕ
  pub max_retries : ℕ

pub record DeliveryStatus : Type 0 where
  pub message_id : String
  pub channel_id : String
  pub state : String
  pub accepted_at : ℕ
  pub updated_at : ℕ
  pub error : String

pub record SenderInfo : Type 0 where
  pub platform : String
  pub platform_id : String
  pub canonical_id : String
  pub username : String
  pub display_name : String
  pub avatar_url : String

pub record Peer : Type 0 where
  pub kind : String
  pub id : String

pub record MediaPart : Type 0 where
  pub kind : String
  pub ref : String
  pub caption : String
  pub filename : String
  pub content_type : String

pub record Inbound : Type 0 where
  pub channel_id : String
  pub message_id : String
  pub chat_id : String
  pub sender_id : String
  pub sender_name : String
  pub sender : SenderInfo
  pub peer : Peer
  pub content : String
  pub metadata : Map String
  pub media : List MediaPart
  pub session_key : String
  pub media_scope : String
  pub received_at : ℕ

pub record Outbound : Type 0 where
  pub id : String
  pub channel_id : String
  pub target_id : String
  pub reply_to : String
  pub content : String
  pub metadata : Map String
  pub idempotency_key : String

pub record OutboundMedia : Type 0 where
  pub id : String
  pub channel_id : String
  pub target_id : String
  pub parts : List MediaPart
  pub metadata : Map String
  pub idempotency_key : String

pub record Receipt : Type 0 where
  pub message_id : String
  pub accepted_at : ℕ
  pub state : String

pub record Notification : Type 0 where
  pub channel_id : String
  pub target_id : String
  pub content : String
  pub metadata : Map String
  pub mention_ids : List String
  pub mention_all : Bool
  pub urgency : String
  pub idempotency_key : String

pub record InboundPreparation : Type 0 where
  pub channel_id : String
  pub target_id : String
  pub message_id : String
  pub reply_to : String
  pub placeholder : String
  pub reaction : String

pub record PreparationReceipt : Type 0 where
  pub typing_action : String
  pub reaction_action : String
  pub placeholder_message : String

-- `StreamingController` over the platforms' state `P`.
pub record StreamingController (P : Type 0) : Type 0 where
  pub start : P → String → String → String → P × Result String
  pub update : P → String → String → String → P × Option Error
  pub finish : P → String → String → String → P × Option Error

-- `Channel`, a platform adapter, over the state `P` of the platforms; an interface that an adapter
-- may implement is an `Option`. A stop function is a step of `P`.
pub record Channel (P : Type 0) : Type 0 where
  pub definition : Definition
  pub start : P → P × Option Error
  pub stop : P → P × Option Error
  pub running : P → Bool
  pub send : P → Outbound → P × Result Receipt
  pub send_media : Option (P → OutboundMedia → P × Result Receipt)
  pub notify : Option (P → Notification → P × Result Receipt)
  pub edit_with_state :
      Option (P → String → String → String → String → Map String → P × Option Error)
  pub edit : Option (P → String → String → String → P × Option Error)
  pub typing : Option (P → String → P × Result (P → P))
  pub react : Option (P → String → String → String → P × Result ((P → P) × (P → P)))
  pub placeholder : Option (P → String → String → String → P × Result String)
  pub streaming : Option (StreamingController P)

abbrev pub queued : String
queued = "queued"

abbrev pub sending : String
sending = "sending"

abbrev pub acknowledged : String
acknowledged = "acknowledged"

abbrev pub failed : String
failed = "failed"

abbrev pub cancelled : String
cancelled = "cancelled"
