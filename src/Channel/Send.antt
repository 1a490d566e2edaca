-- ===== src/Channel/Send.antt =====
-- internal/infrastructure/persistence/memory/channel: send.go, send_media.go, and SendNotification of
-- init.go. The locked parts of a call follow one another without a step of another goroutine
-- between them. `now` is the clock's answer in nanoseconds, used for the message's id too.
pub mod Laws
use keelmesh.Prelude.{
  ℕ, ◌-◌, String, Bool, true, false, ◌||◌, not, Map, lookup, insert, delete, trim, blank, decimal,
  concat, Option, none, some, List, [], ◌∷◌, ◌++◌, length, is_empty, leb, ltb, ◌==◌, if◌then◌else◌,
  Result, ok, err, Error, errorf, wrap,
}
use keelmesh.Channel.Types.{
  Channel, DeliveryStatus, Outbound, OutboundMedia, Receipt, Notification, queued,
}
use keelmesh.Channel.Repository.{
  Repository, Worker, IdempotencyEntry, get, channel_disabled, invalid_message, queue_full,
  half_hour, record_delivery, delete_delivery,
}

-- `message.ChannelID + "\x1e" + idempotencyKey`.
abbrev pub record_separator : String
record_separator = "\u{1e}"

unfoldable pub idempotency_id : String → String → String
idempotency_id channel_id key = concat (channel_id ∷ record_separator ∷ key ∷ [])

abbrev pub receipt : String → ℕ → String → Receipt
receipt id at state = record { message_id = id; accepted_at = at; state = state }

-- `if message.ID == ""`.
unfoldable pub with_id : Outbound → ℕ → Outbound
with_id m now = if m.id == "" then record m { id = concat ("channel-" ∷ decimal now ∷ []) } else m

unfoldable pub with_media_id : OutboundMedia → ℕ → OutboundMedia
with_media_id m now =
    if m.id == "" then record m { id = concat ("media-" ∷ decimal now ∷ []) } else m

module _ {P : Type 0} where
  -- The entry of an earlier message with the same key that is not older than half an hour.
  unfoldable pub previous : Repository P → String → ℕ → Option IdempotencyEntry
  previous r key now = elim (lookup key r.idempotency) [
    | none ↦ none
    | some entry ↦ if leb (now - entry.created_at) half_hour then some entry else none
  ]

  -- The receipt of the earlier message.
  unfoldable pub replay : Repository P → IdempotencyEntry → Receipt
  replay r entry = elim (lookup entry.message_id r.deliveries) [
    | none ↦ receipt entry.message_id entry.created_at queued
    | some status ↦ receipt entry.message_id status.accepted_at status.state
  ]

  abbrev pub remember : Repository P → String → String → ℕ → Repository P
  remember r key id now = record r {
    idempotency =
        insert key (record { message_id = id; created_at = now }) (delete key r.idempotency);
  }

  -- `delete(r.idempotency, …)` on the two failing paths, where there is a key.
  unfoldable pub forget : Repository P → Outbound → Repository P
  forget r m = if blank m.idempotency_key then r else record r {
    idempotency = delete (idempotency_id m.channel_id (trim m.idempotency_key)) r.idempotency;
  }

  -- `Send` once the key is settled: the worker's queue, or the way back.
  unfoldable pub enqueue : Repository P → Outbound → ℕ → Repository P × Result Receipt
  unfolding forget record_delivery delete_delivery
  enqueue r m now = elim (lookup m.channel_id r.workers) [
    | none ↦ (forget r m, err (errorf "channelcore: channel %q is not running" (m.channel_id ∷ [])))
    | some worker ↦
        let r' = record_delivery r m.id m.channel_id queued now "" in
        if ltb (length worker.text) worker.size
        then (
          record r' {
            workers =
                insert m.channel_id (record worker { text = worker.text ++ m ∷ [] }) r'.workers;
          },
          ok (receipt m.id now queued),
        )
        else (forget (delete_delivery r' m.id) m, err queue_full)
  ]

  unfoldable pub send_new : Repository P → Outbound → ℕ → Repository P × Result Receipt
  unfolding enqueue
  send_new r m now =
      if blank m.idempotency_key
      then enqueue r m now
      else enqueue (remember r (idempotency_id m.channel_id (trim m.idempotency_key)) m.id now) m
          now

  -- `Send` of an authorised message.
  unfoldable pub send_authorized : Repository P → Outbound → ℕ → Repository P × Result Receipt
  unfolding send_new previous replay with_id
  send_authorized r m now =
      if blank m.idempotency_key
      then send_new r (with_id m now) now
      else elim (previous r (idempotency_id m.channel_id (trim m.idempotency_key)) now) [
        | some entry ↦ (r, ok (replay r entry))
        | none ↦ send_new r (with_id m now) now
      ]

  unfoldable pub authorize : Repository P → Outbound → Option Error
  authorize r m = elim r.authorizer [ none ↦ none | some check ↦ check m ]

  unfoldable pub send : Repository P → Outbound → ℕ → Repository P × Result Receipt
  unfolding send_authorized authorize
  send r m now =
      if blank m.channel_id || blank m.target_id || blank m.content
      then (r, err invalid_message)
      else elim (get r m.channel_id) [
        | err e ↦ (r, err e)
        | ok channel ↦
            if not channel.definition.enabled
            then (r, err channel_disabled)
            else elim (authorize r m) [
              | some e ↦ (r, err (wrap "channelcore: outbound authorization: %w" [] e))
              | none ↦ send_authorized r m now
            ]
      ]

  unfoldable pub enqueue_media :
      Repository P → OutboundMedia → Worker → ℕ → Repository P × Result Receipt
  unfolding record_delivery delete_delivery
  enqueue_media r m worker now =
      let r' = record_delivery r m.id m.channel_id queued now "" in
      if ltb (length worker.media) worker.size
      then (
        record r' {
          workers =
              insert m.channel_id (record worker { media = worker.media ++ m ∷ [] }) r'.workers;
        },
        ok (receipt m.id now queued),
      )
      else (delete_delivery r' m.id, err queue_full)

  unfoldable pub send_media : Repository P → OutboundMedia → ℕ → Repository P × Result Receipt
  unfolding enqueue_media with_media_id
  send_media r m now =
      if blank m.channel_id || blank m.target_id || is_empty m.parts
      then (r, err invalid_message)
      else elim (get r m.channel_id) [
        | err e ↦ (r, err e)
        | ok channel ↦
            if not channel.definition.enabled
            then (r, err channel_disabled)
            else elim channel.send_media [
              | none ↦ (
                r,
                err (errorf "channelcore: channel %q does not support media" (m.channel_id ∷ [])),
              )
              | some _ ↦ elim (lookup m.channel_id r.workers) [
                | none ↦
                    (r, err (errorf "channelcore: channel %q is not running" (m.channel_id ∷ [])))
                | some worker ↦ enqueue_media r (with_media_id m now) worker now
              ]
            ]
      ]

-- `strings.Join(ids, ",")`.
unfoldable pub join_ids : List String → String
join_ids [] = ""
join_ids (id ∷ []) = id
join_ids (id ∷ next ∷ rest) = concat (id ∷ "," ∷ join_ids (next ∷ rest) ∷ [])

-- The metadata of a notification that goes out as a plain message.
unfoldable pub notification_metadata : Notification → Map String
unfolding join_ids
notification_metadata n =
    let all = if n.mention_all then insert "mention_all" "true" n.metadata else n.metadata in
    if is_empty n.mention_ids then all else insert "mention_ids" (join_ids n.mention_ids) all

module _ {P : Type 0} where
  unfoldable pub send_notification : Repository P → Notification → ℕ → Repository P × Result Receipt
  unfolding notification_metadata
  send_notification r n now = elim (get r n.channel_id) [
    | err e ↦ (r, err e)
    | ok channel ↦ elim channel.notify [
      | some notify ↦
          let (platform, answer) = notify r.platform n in (record r { platform = platform }, answer)
      | none ↦
          send r
            (record {
              id = n.idempotency_key;
              channel_id = n.channel_id;
              target_id = n.target_id;
              reply_to = "";
              content = n.content;
              metadata = notification_metadata n;
              idempotency_key = n.idempotency_key;
            })
            now
    ]
  ]
