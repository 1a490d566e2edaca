-- ===== src/Channel/Repository.antt =====
-- internal/infrastructure/persistence/memory/channel: the state of the repository (init.go), the registry
-- (registry.go, get.go), the delivery records (start.go, delivery.go).
use keelmesh.Prelude.{
  ℕ, String, Bool, false, ◌&&◌, ◌||◌, not, Map, lookup, insert, delete, trim, Option, none, some,
  List, [], ◌∷◌, eqb, ◌==◌, if◌then◌else◌, Result, ok, err, Error, new, errorf, wrap, is,
}
use keelmesh.Channel.Types.{Channel, DeliveryStatus, Inbound, Outbound, OutboundMedia}

-- A worker: its two bounded queues, oldest first, of the channel's queue size.
pub record Worker : Type 0 where
  pub text : List Outbound
  pub media : List OutboundMedia
  pub size : ℕ

-- A subscription: the channels it filters for, and its queue of 64.
pub record Subscription : Type 0 where
  pub channels : List String
  pub queue : List Inbound

pub record ActionEntry (P : Type 0) : Type 0 where
  pub stop : P → P
  pub created_at : ℕ

pub record ReactionAction (P : Type 0) : Type 0 where
  pub complete : P → P
  pub expire : P → P
  pub created_at : ℕ

pub record LifecycleEntry : Type 0 where
  pub state : String
  pub created_at : ℕ

pub record IdempotencyEntry : Type 0 where
  pub message_id : String
  pub created_at : ℕ

-- `Repository`, with the state of the platforms that its channels act on. The forward queue is
-- there once a forwarder is set; `cancel` is only asked for whether it is nil.
pub record Repository (P : Type 0) : Type 0 where
  pub platform : P
  pub registry : Map (Channel P)
  pub next_id : ℕ
  pub subs : List (ℕ × Subscription)
  pub workers : Map Worker
  pub deliveries : Map DeliveryStatus
  pub idempotency : Map IdempotencyEntry
  pub actions : Map (ActionEntry P)
  pub reactions : Map (ReactionAction P)
  pub lifecycle : Map LifecycleEntry
  pub inbound_dropped : ℕ
  pub authorizer : Option (Outbound → Option Error)
  pub forward_queue : Option (List Inbound)
  pub forward_dropped : ℕ
  pub forward_failures : ℕ
  pub has_cancel : Bool

abbrev pub channel_not_found : Error
channel_not_found = new "channelcore: channel not found"

abbrev pub channel_disabled : Error
channel_disabled = new "channelcore: channel is disabled"

abbrev pub invalid_message : Error
invalid_message = new "channelcore: invalid message"

abbrev pub queue_full : Error
queue_full = new "channelcore: channel queue is full"

abbrev pub unsupported : Error
unsupported = new "channelcore: capability unsupported"

-- 30 minutes.
abbrev pub half_hour : ℕ
half_hour = 1800000000000

-- `errors.Is` on the sentinels above and on the two of `context`.
unfoldable pub retryable : Error → Bool
retryable e =
    if is e "context canceled" || is e "context deadline exceeded"
    then false
    else not (is e "channelcore: invalid message")
      && not (is e "channelcore: channel is disabled")
      && not (is e "channelcore: capability unsupported")
      && not (is e "channelcore: channel queue is full")

module _ {P : Type 0} where
  -- `Registry.Register` of a channel that is not nil.
  unfoldable pub register : Map (Channel P) → Channel P → Map (Channel P) × Option Error
  register channels c =
      if trim c.definition.id == "" || not (trim c.definition.id == c.definition.id)
      then (channels, some (wrap "%w: channel id" [] invalid_message))
      else elim (lookup c.definition.id channels) [
        | some _ ↦ (
          channels,
          some (errorf "channelcore: channel %q already registered" (c.definition.id ∷ [])),
        )
        | none ↦ (insert c.definition.id c channels, none)
      ]

  -- `Repository.Get`.
  unfoldable pub get : Repository P → String → Result (Channel P)
  get r id = elim (lookup id r.registry) [ none ↦ err channel_not_found | some c ↦ ok c ]

  -- `recordDeliveryWithMessageID`.
  unfoldable pub record_delivery_as :
      Repository P → String → String → String → String → ℕ → String → Repository P
  record_delivery_as r id channel_id message_id state updated message =
      let accepted : ℕ = elim (lookup id r.deliveries) [
        | none ↦ updated
        | some status ↦ if eqb status.accepted_at 0 then updated else status.accepted_at
      ] in
      record r {
        deliveries =
            insert id
              (record {
                message_id = message_id;
                channel_id = channel_id;
                state = state;
                accepted_at = accepted;
                updated_at = updated;
                error = message;
              })
              r.deliveries;
      }

  -- `recordDelivery`.
  unfoldable pub record_delivery :
      Repository P → String → String → String → ℕ → String → Repository P
  unfolding record_delivery_as
  record_delivery r id channel_id state updated message =
      record_delivery_as r id channel_id id state updated message

  -- `Delivery`.
  unfoldable pub delivery : Repository P → String → Option DeliveryStatus
  delivery r id = lookup id r.deliveries

  unfoldable pub delete_delivery : Repository P → String → Repository P
  delete_delivery r id = record r { deliveries = delete id r.deliveries }
