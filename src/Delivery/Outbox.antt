-- ===== src/Delivery/Outbox.antt =====
-- internal/application/gate/outbox_dispatcher.go: what the gate puts into the outbox, and what the
-- publisher does with a message of it. The outbox runtime, the database, the JSON encoding, the clock
-- and the client of ChannelCore are parameters.
use keelmesh.Prelude.{
  ℕ, String, Option, none, some, [], ◌∷◌, decimal, concat, ◌==◌, if◌then◌else◌, Result, ok, err,
  Error, errorf, wrap,
}
use keelmesh.Gate.Types.{Task, ExecutionResult}
use keelmesh.Gate.Store.{OutboundDispatcher}

pub record DeliveryEnvelope : Type 0 where
  pub task : Task
  pub result : ExecutionResult
  pub progress : String
  pub progress_state : String

-- `outbox.Message` of the outbox library, with its payload as a text.
pub record Message : Type 0 where
  pub id : String
  pub destination : String
  pub key : String
  pub payload : String

-- `json.Marshal` and `json.Unmarshal` of an envelope.
pub record Json : Type 0 where
  pub marshal : DeliveryEnvelope → Result String
  pub unmarshal : String → Result DeliveryEnvelope

-- The database of the outbox over its contents `W`: whether a transaction begins, the runtime's
-- `Enqueue` in a transaction, which works on a copy of the contents, and the commit of that copy.
pub record OutboxStore (W : Type 0) : Type 0 where
  pub begin : W → Option Error
  pub enqueue : W → Message → ℕ → W × Option Error
  pub commit : W → W → W × Option Error

-- `DeliveryClient` over the state `C` that it acts on.
pub record DeliveryClient (C : Type 0) : Type 0 where
  pub dispatch : C → Task → ExecutionResult → C × Option Error
  pub dispatch_progress : C → Task → String → String → C × Option Error

abbrev pub final_destination : String
final_destination = "channelcore.delivery.final"

abbrev pub progress_destination : String
progress_destination = "channelcore.delivery.progress"

abbrev pub final_key : Task → String
final_key task = concat (task.id ∷ "/final" ∷ [])

abbrev pub progress_key : Task → String → String
progress_key task state = concat (task.id ∷ "/progress/" ∷ state ∷ [])

abbrev pub final_envelope : Task → ExecutionResult → DeliveryEnvelope
final_envelope task result = record {
  task = task;
  result = result;
  progress = "";
  progress_state = "";
}

abbrev pub progress_envelope : Task → String → String → DeliveryEnvelope
progress_envelope task state content = record {
  task = task;
  result = record { content = "" };
  progress = content;
  progress_state = state;
}

unfoldable pub message : String → String → String → ℕ → Message
message destination key payload now = record {
  id = concat (key ∷ "-" ∷ decimal now ∷ []);
  destination = destination;
  key = key;
  payload = payload;
}

module _ {W : Type 0} (json : Json) (store : OutboxStore W) where
  -- `enqueueTx`, on the contents that the transaction sees.
  unfoldable pub enqueue_tx : W → String → String → DeliveryEnvelope → ℕ → W × Option Error
  unfolding message
  enqueue_tx w destination key envelope now = elim (json.marshal envelope) [
    | err e ↦ (w, some (wrap "gatecore: encode channel delivery: %w" [] e))
    | ok payload ↦ store.enqueue w (message destination key payload now) now
  ]

  -- `enqueue`; where it does not commit, the transaction is rolled back.
  unfoldable pub enqueue : W → String → String → DeliveryEnvelope → ℕ → W × Option Error
  unfolding enqueue_tx
  enqueue w destination key envelope now = elim (store.begin w) [
    | some e ↦ (w, some (wrap "gatecore: begin channel delivery outbox: %w" [] e))
    | none ↦
        let (tx, failure) = enqueue_tx w destination key envelope now in
        elim failure [
          | some e ↦ (w, some (wrap "gatecore: enqueue channel delivery: %w" [] e))
          | none ↦
              let (w', failure') = store.commit w tx in
              elim failure' [
                | some e ↦ (w', some (wrap "gatecore: commit channel delivery outbox: %w" [] e))
                | none ↦ (w', none)
              ]
        ]
  ]

  unfoldable pub dispatch : ℕ → W → Task → ExecutionResult → W × Option Error
  unfolding enqueue
  dispatch now w task result =
      enqueue w final_destination (final_key task) (final_envelope task result) now

  unfoldable pub dispatch_progress : ℕ → W → Task → String → String → W × Option Error
  unfolding enqueue
  dispatch_progress now w task state content =
      enqueue w progress_destination (progress_key task state)
        (progress_envelope task state content) now

  unfoldable pub enqueue_final : ℕ → Task → ExecutionResult → W → W × Option Error
  unfolding enqueue_tx
  enqueue_final now task result w =
      enqueue_tx w final_destination (final_key task) (final_envelope task result) now

  unfoldable pub enqueue_progress : ℕ → Task → String → String → W → W × Option Error
  unfolding enqueue_tx
  enqueue_progress now task state content w =
      enqueue_tx w progress_destination (progress_key task state)
        (progress_envelope task state content) now

  -- `outboxDelivery`, as the gate's dispatcher.
  unfoldable pub outbox_delivery : ℕ → OutboundDispatcher W
  unfolding dispatch dispatch_progress enqueue_final enqueue_progress
  outbox_delivery now = record {
    dispatch = dispatch now;
    progress = some (dispatch_progress now);
    transactional =
        some
          (record { enqueue_final = enqueue_final now; enqueue_progress = enqueue_progress now });
  }

-- `DeliveryPublisher.Publish`.
unfoldable pub publish_delivery :
    {C : Type 0} → Json → DeliveryClient C → C → Message → C × Option Error
publish_delivery json client c m = elim (json.unmarshal m.payload) [
  | err e ↦ (c, some (wrap "gatecore: decode channel delivery outbox: %w" [] e))
  | ok envelope ↦
      if m.destination == final_destination
      then client.dispatch c envelope.task envelope.result
      else if m.destination == progress_destination
      then client.dispatch_progress c envelope.task envelope.progress_state envelope.progress
      else (
        c,
        some (errorf "gatecore: unsupported channel delivery destination %q" (m.destination ∷ [])),
      )
]
