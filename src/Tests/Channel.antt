-- ===== src/Tests/Channel.antt =====
-- The theorems on internal/infrastructure/persistence/memory/channel at concrete inputs.
use keelmesh.Prelude.{
  ℕ, ◌+◌, ◌≤◌, ◌<◌, ◌≡◌, refl, eqb, if◌then◌else◌, trim, insert, delete, String, true, false,
  lookup, none, some, List, [], ◌∷◌, length, All, ok, err, Error, new, errorf, arith,
}
use keelmesh.Channel.Types.{Channel, Outbound, Receipt, Inbound, queued}
use keelmesh.Channel.Repository.{Repository, Subscription, get}
use keelmesh.Channel.Send.{
  send_authorized, receipt, previous, send_new, enqueue, with_id, idempotency_id,
}
use keelmesh.Channel.Send.Laws.{send_authorized-once}
use keelmesh.Channel.Worker.{Script, send_with_retry}
use keelmesh.Channel.Worker.Laws.{IsSettled, send_with_retry-IsSettled}
use keelmesh.Channel.Split.{split_runes, runes}
use keelmesh.Channel.Split.Laws.{split_runes-fit}
use keelmesh.Channel.Inbound.{offer_all}
use keelmesh.Channel.Inbound.Laws.{AreServed, offer_all-AreServed}
use keelmesh.Channel.Actions.{
  apply_reaction, stop_typing, finish_streaming_message, update_streaming_message,
  ensure_streaming_open, end_lifecycle, lifecycle_state,
}
use keelmesh.Channel.Actions.Laws.{apply_reaction_once, stop_typing_once, finish-update_refused}

-- A platform counts the calls that it gets; it has trouble with the first one.
abbrev pub channel : Channel ℕ
channel = record {
  definition = record {
    id = "ops";
    kind = "telegram";
    enabled = true;
    capabilities = [];
    group_trigger = record { mention_only = false; prefixes = [] };
    queue_size = 2;
    max_retries = 1;
  };
  start = λ p. (p, none);
  stop = λ p. (p, none);
  running = λ p. true;
  send = λ p m. (p + 1, if eqb p 0 then err (new "timeout") else ok (receipt "" 0 ""));
  send_media = none;
  notify = none;
  edit_with_state = none;
  edit = none;
  typing = none;
  react = none;
  placeholder = none;
  streaming = some (record {
    start = λ p target reply content. (p + 1, ok "m1");
    update = λ p target message content. (p + 1, none);
    finish = λ p target message content. (p + 1, none);
  });
}

abbrev pub repository : Repository ℕ
repository = record {
  platform = 0;
  registry = ("ops", channel) ∷ [];
  next_id = 0;
  subs = [];
  workers = ("ops", record { text = []; media = []; size = 2 }) ∷ [];
  deliveries = [];
  idempotency = [];
  actions = ("a1", record { stop = λ p. p + 1; created_at = 0 }) ∷ [];
  reactions = ("b1", record { complete = λ p. p + 1; expire = λ p. p + 2; created_at = 0 }) ∷ [];
  lifecycle = [];
  inbound_dropped = 0;
  authorizer = none;
  forward_queue = none;
  forward_dropped = 0;
  forward_failures = 0;
  has_cancel = false;
}

abbrev pub message : Outbound
message = record {
  id = "m1";
  channel_id = "ops";
  target_id = "room";
  reply_to = "";
  content = "hello";
  metadata = [];
  idempotency_key = "k1";
}

no_previous : previous repository (idempotency_id "ops" "k1") 5 ≡ none
unfolding previous lookup
no_previous = refl

taken : (send_authorized repository message 5).1 ≡ ok (receipt "m1" 5 queued)
unfolding send_authorized send_new enqueue with_id previous idempotency_id lookup trim insert delete
taken = refl

send_authorized-once_example :
    let r = (send_authorized repository message 5).0 in
    (again : Receipt) × (send_authorized r (record message { id = "m2" }) 9 ≡ (r, ok again))
    × (again.message_id ≡ "m1")
unfolding trim
send_authorized-once_example =
    send_authorized-once repository message (record message { id = "m2" }) (receipt "m1" 5 queued) 5
      9 refl no_previous taken refl refl (omega arith)

abbrev text_of : Error → String
text_of e = "failed"

abbrev script : Script
script n = record { limiter = none; backoff = none; time = n }

send_with_retry-IsSettled_example :
    let (r, failure) = send_with_retry text_of channel message script 5 repository in
    IsSettled text_of "m1" r failure
send_with_retry-IsSettled_example =
    send_with_retry-IsSettled text_of channel message script 5 repository

split_runes-fit_example :
    All (λ chunk. (0 < length chunk) × (length chunk ≤ 4)) (split_runes 11 4 (runes "one two six"))
split_runes-fit_example = split_runes-fit 11 4 (runes "one two six") (omega arith)

abbrev inbound : Inbound
inbound = record {
  channel_id = "ops";
  message_id = "m1";
  chat_id = "room";
  sender_id = "u1";
  sender_name = "Ada";
  sender = record {
    platform = "";
    platform_id = "";
    canonical_id = "";
    username = "";
    display_name = "";
    avatar_url = "";
  };
  peer = record { kind = ""; id = "" };
  content = "hello";
  metadata = [];
  media = [];
  session_key = "";
  media_scope = "";
  received_at = 0;
}

abbrev subscriptions : List (ℕ × Subscription)
subscriptions =
    (2, record { channels = "ops" ∷ []; queue = [] })
    ∷ (1, record { channels = "dev" ∷ []; queue = inbound ∷ [] })
    ∷ []

offer_all-AreServed_example :
    AreServed inbound subscriptions
      (offer_all subscriptions inbound).0
      (offer_all subscriptions inbound).1
offer_all-AreServed_example = offer_all-AreServed subscriptions inbound

reacted : (apply_reaction repository "b1" true).1 ≡ true
unfolding apply_reaction lookup
reacted = refl

apply_reaction_once_example :
    let r = (apply_reaction repository "b1" true).0 in apply_reaction r "b1" false ≡ (r, false)
apply_reaction_once_example = apply_reaction_once repository "b1" true false reacted

stopped : (stop_typing repository "a1").1 ≡ true
unfolding stop_typing lookup
stopped = refl

stop_typing_once_example :
    let r = (stop_typing repository "a1").0 in stop_typing r "a1" ≡ (r, false)
stop_typing_once_example = stop_typing_once repository "a1" stopped

finished : (finish_streaming_message repository "ops" "room" "m1" "done" 5).1 ≡ none
unfolding finish_streaming_message ensure_streaming_open end_lifecycle lifecycle_state get lookup
finished = refl

finish-update_refused_example :
    let r = (finish_streaming_message repository "ops" "room" "m1" "done" 5).0 in
    update_streaming_message r "ops" "room" "m1" "more"
    ≡ (r, some (errorf "channelcore: message %q lifecycle is already %s" ("m1" ∷ "final" ∷ [])))
finish-update_refused_example =
    finish-update_refused repository "ops" "room" "m1" "done" "more" 5 finished
