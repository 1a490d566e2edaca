-- ===== src/Tests/Delivery.antt =====
-- The theorems on the outbox and the delivery router at concrete inputs. The JSON encoding of the
-- tests encodes the envelopes of one task, by the only part in which they differ.
use keelmesh.Prelude.{
  String, Bool, true, false, ◌&&◌, Map, ◌≡◌, refl, List, [], ◌∷◌, none, some, lookup, trim, ok, err,
  new, ◌==◌, eq_iff, arith, pos, negsuc, zero, suc, ℤ, if◌then◌else◌, Bool-cases, inl, inr, ap, sym,
  ◌∙◌,
}
use keelmesh.Gate.Types.{Task, ExecutionResult}
use keelmesh.Delivery.Outbox.{
  Json, Message, OutboxStore, DeliveryClient, DeliveryEnvelope, final_destination,
  progress_destination, final_envelope, progress_envelope, publish_delivery, enqueue_final,
  enqueue_progress,
}
use keelmesh.Delivery.Router.{Router, register}
use keelmesh.Delivery.Laws.{
  IsFaithful, IsDelivered, register-keeps, enqueue_final-IsDelivered, enqueue_progress-IsDelivered,
}

abbrev task : Task
task = record {
  id = "t1";
  channel_id = "ops";
  target_id = "room";
  content = "check";
  metadata = [];
  event_sequence = pos 0;
}

abbrev same_map : Map String → Map String → Bool
same_map [] [] = true
same_map _ _ = false

same_map-≡ : (a b : Map String) → same_map a b ≡ true → a ≡ b
same_map-≡ [] [] h = refl
same_map-≡ [] (x ∷ b) h = absurd (ground (arith, h))
same_map-≡ (x ∷ a) b h = absurd (ground (arith, h))

abbrev same_ℤ : ℤ → ℤ → Bool
same_ℤ (pos zero) (pos zero) = true
same_ℤ _ _ = false

same_ℤ-≡ : (a b : ℤ) → same_ℤ a b ≡ true → a ≡ b
same_ℤ-≡ (pos zero) (pos zero) h = refl
same_ℤ-≡ (pos zero) (pos (suc n)) h = absurd (ground (arith, h))
same_ℤ-≡ (pos zero) (negsuc n) h = absurd (ground (arith, h))
same_ℤ-≡ (pos (suc m)) b h = absurd (ground (arith, h))
same_ℤ-≡ (negsuc m) b h = absurd (ground (arith, h))

same_envelope : DeliveryEnvelope → DeliveryEnvelope → Bool
same_envelope a b =
    a.task.id == b.task.id
    && a.task.channel_id == b.task.channel_id
    && a.task.target_id == b.task.target_id
    && a.task.content == b.task.content
    && same_map a.task.metadata b.task.metadata
    && same_ℤ a.task.event_sequence b.task.event_sequence
    && a.result.content == b.result.content
    && a.progress == b.progress
    && a.progress_state == b.progress_state

envelope :
    String → String → String → String → Map String → ℤ → String → String → String → DeliveryEnvelope
envelope id channel_id target_id content metadata sequence result progress state = record {
  task = record {
    id = id;
    channel_id = channel_id;
    target_id = target_id;
    content = content;
    metadata = metadata;
    event_sequence = sequence;
  };
  result = record { content = result };
  progress = progress;
  progress_state = state;
}

same_envelope-≡ : (a b : DeliveryEnvelope) → same_envelope a b ≡ true → a ≡ b
unfolding same_envelope envelope
same_envelope-≡ a b h =
    let id : a.task.id ≡ b.task.id = ground (arith, h, eq_iff a.task.id b.task.id) in
    let channel_id : a.task.channel_id ≡ b.task.channel_id =
      ground (arith, h, eq_iff a.task.channel_id b.task.channel_id) in
    let target_id : a.task.target_id ≡ b.task.target_id =
      ground (arith, h, eq_iff a.task.target_id b.task.target_id) in
    let content : a.task.content ≡ b.task.content =
      ground (arith, h, eq_iff a.task.content b.task.content) in
    let metadata : a.task.metadata ≡ b.task.metadata =
      same_map-≡ a.task.metadata b.task.metadata (ground (arith, h)) in
    let sequence : a.task.event_sequence ≡ b.task.event_sequence =
      same_ℤ-≡ a.task.event_sequence b.task.event_sequence (ground (arith, h)) in
    let result : a.result.content ≡ b.result.content =
      ground (arith, h, eq_iff a.result.content b.result.content) in
    let progress : a.progress ≡ b.progress = ground (arith, h, eq_iff a.progress b.progress) in
    let state : a.progress_state ≡ b.progress_state =
      ground (arith, h, eq_iff a.progress_state b.progress_state) in
    λ i.
      envelope (id i) (channel_id i) (target_id i) (content i) (metadata i) (sequence i) (result i)
        (progress i) (state i)

-- Encodes the envelopes that `build` makes from a text, by that text.
abbrev json_of : (String → DeliveryEnvelope) → (DeliveryEnvelope → String) → Json
json_of build part = record {
  marshal = λ e.
      if same_envelope e (build (part e)) then ok (part e) else err (new "json: unsupported value");
  unmarshal = λ text. ok (build text);
}

json_of-IsFaithful :
    (build : String → DeliveryEnvelope) (part : DeliveryEnvelope → String)
    → IsFaithful (json_of build part)
json_of-IsFaithful build part e text h = elim (Bool-cases (same_envelope e (build (part e)))) [
  | inl same ↦
      let found : part e ≡ text = ground (arith, h, same) in
      ap ok (sym (same_envelope-≡ e (build (part e)) same ∙ ap build found))
  | inr other ↦ absurd (ground (arith, h, other))
]

abbrev answer : ExecutionResult
answer = record { content = "done" }

abbrev final_of : String → DeliveryEnvelope
final_of text = final_envelope task (record { content = text })

abbrev progress_of : String → DeliveryEnvelope
progress_of text = progress_envelope task "running" text

-- A client that notes what it is given.
abbrev client : DeliveryClient (List String)
client = record {
  dispatch = λ c t r. (r.content ∷ c, none);
  dispatch_progress = λ c t state content. (content ∷ state ∷ c, some (new "closed"));
}

abbrev store : OutboxStore (List Message)
store = record {
  begin = λ w. none;
  enqueue = λ w m now. (m ∷ w, none);
  commit = λ old new. (new, none);
}

abbrev final_json : Json
final_json = json_of final_of (λ e. e.result.content)

abbrev progress_json : Json
progress_json = json_of progress_of (λ e. e.progress)

enqueue_final-IsDelivered_example :
    IsDelivered final_json client store [] [] [] 7 final_destination
      (enqueue_final final_json store 7 task answer [])
      (client.dispatch [] task answer)
unfolding register trim lookup enqueue_final same_envelope
enqueue_final-IsDelivered_example =
    enqueue_final-IsDelivered final_json client
      (json_of-IsFaithful final_of (λ e. e.result.content)) store [] [] [] task answer 7 refl refl

enqueue_progress-IsDelivered_example :
    IsDelivered progress_json client store [] [] [] 7 progress_destination
      (enqueue_progress progress_json store 7 task "running" "half" [])
      (client.dispatch_progress [] task "running" "half")
unfolding register trim lookup enqueue_progress same_envelope
enqueue_progress-IsDelivered_example =
    enqueue_progress-IsDelivered progress_json client
      (json_of-IsFaithful progress_of (λ e. e.progress)) store [] [] [] task "running" "half" 7 refl
      refl

abbrev router : Router (List String)
router = (final_destination, publish_delivery final_json client) ∷ []

register-keeps_example :
    lookup final_destination
      (register router " channelcore.delivery.final" (some (λ c m. (c, none)))).0
    ≡ some (publish_delivery final_json client)
unfolding lookup
register-keeps_example =
    register-keeps router final_destination " channelcore.delivery.final"
      (publish_delivery final_json client) (some (λ c m. (c, none))) refl
