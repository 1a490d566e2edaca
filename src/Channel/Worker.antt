-- ===== src/Channel/Worker.antt =====
-- internal/infrastructure/persistence/memory/channel/start.go: how a worker delivers one message,
-- with its retries, and how it drains its queues. The answers of the limiter, of the backoff timers
-- and of the clock are a script, one round for each attempt.
pub mod Laws
use keelmesh.Prelude.{
  ℕ, zero, suc, ◌≤◌, ◌<◌, String, Bool, true, false, ◌||◌, not, Option, none, some, List, [], ◌∷◌,
  eqb, ◌==◌, if◌then◌else◌, Result, ok, err, Error,
}
use keelmesh.Channel.Types.{
  Channel, Outbound, OutboundMedia, Receipt, sending, acknowledged, failed, cancelled,
}
use keelmesh.Channel.Repository.{Repository, retryable, record_delivery, record_delivery_as}
use keelmesh.Channel.Split.{max_message_length, split_outbound}

-- What one attempt meets: the limiter's answer, the backoff's answer, and the time.
pub record Round : Type 0 where
  pub limiter : Option Error
  pub backoff : Option Error
  pub time : ℕ

-- The rounds by their number.
abbrev pub Script : Type 0
Script = ℕ → Round

unfoldable pub max_retries : ℕ → ℕ
max_retries n = if eqb n 0 then 4 else n

-- `if receipt.MessageID != ""`.
abbrev pub known_id : String → Receipt → String
known_id id receipt = if receipt.message_id == "" then id else receipt.message_id

module _ {P : Type 0} (render : Error → String) where
  -- One round: the answer ends the delivery (`some`), or a further round follows (`none`).
  unfoldable pub round :
      (P → P × Result Receipt)
      → String
      → String
      → Round
      → Bool
      → Repository P
      → Repository P × Option (Option Error)
  round send id channel_id now last r = elim now.limiter [
    | some e ↦ (record_delivery r id channel_id cancelled now.time (render e), some (some e))
    | none ↦
        let (platform, answer) = send r.platform in
        let r' = record r { platform = platform } in
        elim answer [
          | ok receipt ↦ (
            record_delivery_as r' id channel_id (known_id id receipt) acknowledged now.time "",
            some none,
          )
          | err e ↦
              if not (retryable e) || last
              then (record_delivery r' id channel_id failed now.time (render e), some (some e))
              else elim now.backoff [
                | none ↦ (r', none)
                | some stop ↦ (
                  record_delivery r' id channel_id cancelled now.time (render stop),
                  some (some stop),
                )
              ]
        ]
  ]

  -- The loop of `sendWithRetry` and of `sendMediaWithRetry`: `left` retries after this round.
  unfoldable pub rounds :
      (P → P × Result Receipt)
      → String
      → String
      → Script
      → ℕ
      → ℕ
      → Repository P
      → Repository P × Option Error
  unfolding round
  rounds send id channel_id script zero attempt r =
      let (r', answer) = round send id channel_id (script attempt) true r in
      elim answer [ some e ↦ (r', e) | none ↦ (r', none) ]
  rounds send id channel_id script (suc left) attempt r =
      let (r', answer) = round send id channel_id (script attempt) false r in
      elim answer [
        | some e ↦ (r', e)
        | none ↦ rounds send id channel_id script left (suc attempt) r'
      ]

  unfoldable pub send_with_retry :
      Channel P → Outbound → Script → ℕ → Repository P → Repository P × Option Error
  unfolding rounds max_retries
  send_with_retry c m script now r =
      rounds (λ p. c.send p m) m.id m.channel_id script (max_retries c.definition.max_retries) 0
        (record_delivery r m.id m.channel_id sending now "")

  unfoldable pub send_media_with_retry :
      Channel P
      → (P → OutboundMedia → P × Result Receipt)
      → OutboundMedia
      → Script
      → ℕ
      → Repository P
      → Repository P
  unfolding rounds max_retries
  send_media_with_retry c send m script now r =
      (rounds (λ p. send p m) m.id m.channel_id script (max_retries c.definition.max_retries) 0
        (record_delivery r m.id m.channel_id sending now "")).0

  -- The loop of `runWorker` over the chunks of one message: an error ends it.
  unfoldable pub send_chunks :
      Channel P → List Outbound → (ℕ → Script) → ℕ → ℕ → Repository P → Repository P
  unfolding send_with_retry
  send_chunks c [] scripts n now r = r
  send_chunks c (m ∷ rest) scripts n now r =
      let (r', failure) = send_with_retry c m (scripts n) now r in
      let done = send_chunks c rest scripts (suc n) now r' in
      elim failure [ some e ↦ r' | none ↦ done ]

  -- `runWorker` on one text message of its queue.
  unfoldable pub deliver_text :
      Channel P → Outbound → (ℕ → Script) → ℕ → Repository P → Repository P
  unfolding send_chunks
  deliver_text c m scripts now r =
      send_chunks c (split_outbound m (max_message_length c.definition.kind)) scripts 0 now r

  -- `runWorker` on one media message of its queue.
  unfoldable pub deliver_media :
      Channel P → OutboundMedia → Script → ℕ → Repository P → Repository P
  unfolding send_media_with_retry
  deliver_media c m script now r = elim c.send_media [
    | none ↦ r
    | some send ↦ send_media_with_retry c send m script now r
  ]

  -- The text messages of `drainWorker`, which go out unsplit.
  unfoldable pub drain_text :
      Channel P → List Outbound → (ℕ → Script) → ℕ → ℕ → Repository P → Repository P
  unfolding send_with_retry
  drain_text c [] scripts n now r = r
  drain_text c (m ∷ rest) scripts n now r =
      drain_text c rest scripts (suc n) now (send_with_retry c m (scripts n) now r).0
