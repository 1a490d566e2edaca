-- ===== src/Channel/Inbound.antt =====
-- internal/infrastructure/persistence/memory/channel: publish.go and subscribe.go. An inbound message
-- passes the group trigger, is completed, and goes to every subscription that wants it and to the
-- forward queue; a full queue drops it and counts the loss.
pub mod Laws
use keelmesh.Prelude.{
  ℕ, suc, ◌+◌, ◌<◌, String, Bool, true, false, ◌&&◌, ◌||◌, not, Map, lookup, trim, concat, Option,
  none, some, List, [], ◌∷◌, ◌++◌, length, is_empty, any, eqb, ltb, ◌==◌, if◌then◌else◌, Result, ok,
  err, Error,
}
use text.Mathlib.Text.{starts_with}
use Prim.Native.String
use keelmesh.Channel.Types.{Channel, GroupTriggerPolicy, Inbound, SenderInfo, Peer}
use keelmesh.Channel.Repository.{Repository, Subscription, get}

abbrev pub metadata_is : Map String → String → String → Bool
metadata_is metadata key value = elim (lookup key metadata) [
  | none ↦ "" == value
  | some v ↦ v == value
]

abbrev pub or_else : String → String → String
or_else s t = if s == "" then t else s

-- `normalizeInbound` of the sender.
unfoldable pub normalize_sender : Inbound → String → SenderInfo
normalize_sender m kind =
    let platform = or_else m.sender.platform kind in
    let platform_id = or_else m.sender.platform_id m.sender_id in
    record m.sender {
      platform = platform;
      platform_id = platform_id;
      canonical_id =
          if m.sender.canonical_id == "" && not (platform == "") && not (platform_id == "")
          then concat (platform ∷ ":" ∷ platform_id ∷ [])
          else m.sender.canonical_id;
      display_name = or_else m.sender.display_name m.sender_name;
    }

unfoldable pub normalize_peer : Inbound → Peer
normalize_peer m = record {
  kind = or_else m.peer.kind (if metadata_is m.metadata "scope" "group" then "group" else "direct");
  id = or_else m.peer.id m.chat_id;
}

-- `normalizeInbound`.
unfoldable pub normalize_inbound : Inbound → String → Inbound
unfolding normalize_sender normalize_peer
normalize_inbound m kind = record m {
  sender = normalize_sender m kind;
  peer = normalize_peer m;
  session_key = or_else m.session_key (concat (kind ∷ ":" ∷ m.chat_id ∷ ":" ∷ m.sender_id ∷ []));
  media_scope = or_else m.media_scope (concat (kind ∷ ":" ∷ m.chat_id ∷ ":" ∷ m.message_id ∷ []));
}

-- `strings.TrimPrefix`.
unfoldable pub trim_prefix : String → String → String
trim_prefix s p = if starts_with s p then String.slice s (String.len p) (String.len s) else s

-- The loop of `applyGroupTrigger` over the prefixes.
unfoldable pub match_prefix : List String → Inbound → Option Inbound
unfolding trim_prefix
match_prefix [] m = none
match_prefix (p ∷ rest) m =
    let later = match_prefix rest m in
    if not (p == "") && starts_with m.content p
    then some (record m { content = trim (trim_prefix m.content p) })
    else later

-- `applyGroupTrigger`.
unfoldable pub apply_group_trigger : GroupTriggerPolicy → Inbound → Option Inbound
unfolding match_prefix
apply_group_trigger policy m =
    if not (metadata_is m.metadata "scope" "group")
    then some m
    else if metadata_is m.metadata "mentioned" "true"
    then some (record m { content = trim m.content })
    else if policy.mention_only
    then none
    else if is_empty policy.prefixes
    then some (record m { content = trim m.content })
    else match_prefix policy.prefixes m

-- The capacity of a subscription's queue, and of the forward queue.
abbrev pub capacity : ℕ
capacity = 64

abbrev pub wants : Subscription → String → Bool
wants s channel_id = is_empty s.channels || any (λ c. c == channel_id) s.channels

-- One subscription, and the drop that it counts.
unfoldable pub offer : Subscription → Inbound → Subscription × ℕ
offer s m =
    if not (wants s m.channel_id)
    then (s, 0)
    else if ltb (length s.queue) capacity
    then (record s { queue = s.queue ++ m ∷ [] }, 0)
    else (s, 1)

-- The loop of `Publish` over the subscriptions.
unfoldable pub offer_all : List (ℕ × Subscription) → Inbound → List (ℕ × Subscription) × ℕ
unfolding offer
offer_all [] m = ([], 0)
offer_all ((id, s) ∷ rest) m =
    let (s', lost) = offer s m in
    let (rest', lost') = offer_all rest m in ((id, s') ∷ rest', lost + lost')

unfoldable pub without : ℕ → List (ℕ × Subscription) → List (ℕ × Subscription)
without id [] = []
without id ((j, s) ∷ rest) = let kept = without id rest in if eqb j id then kept else (j, s) ∷ kept

module _ {P : Type 0} where
  unfoldable pub forward : Repository P → Inbound → Repository P
  forward r m = elim r.forward_queue [
    | none ↦ r
    | some queue ↦
        if ltb (length queue) capacity
        then record r { forward_queue = some (queue ++ m ∷ []) }
        else record r { forward_dropped = suc r.forward_dropped }
  ]

  -- `Publish` of a message that passed the trigger.
  unfoldable pub fan_out : Repository P → Inbound → Repository P
  unfolding offer_all forward
  fan_out r m =
      let (subs, lost) = offer_all r.subs m in
      forward (record r { subs = subs; inbound_dropped = r.inbound_dropped + lost }) m

  -- `Publish`, at the clock's time `now`.
  unfoldable pub publish : Repository P → Inbound → ℕ → Repository P
  unfolding fan_out apply_group_trigger normalize_inbound
  publish r m now = elim (get r m.channel_id) [
    | err e ↦ r
    | ok c ↦ elim (apply_group_trigger c.definition.group_trigger m) [
      | none ↦ r
      | some m' ↦
          let full = normalize_inbound m' c.definition.kind in
          fan_out r
            (record full { received_at = if eqb full.received_at 0 then now else full.received_at })
    ]
  ]

  -- The check of the filters of `Subscribe`.
  unfoldable pub check_channels : Repository P → List String → Option Error
  check_channels r [] = none
  check_channels r (id ∷ rest) =
      let later = check_channels r rest in elim (get r id) [ err e ↦ some e | ok _ ↦ later ]

  -- `Subscribe`: the number of the new subscription.
  unfoldable pub subscribe : Repository P → List String → Repository P × Result ℕ
  unfolding check_channels
  subscribe r ids = elim (check_channels r ids) [
    | some e ↦ (r, err e)
    | none ↦ (
      record r {
        next_id = suc r.next_id;
        subs = (suc r.next_id, record { channels = ids; queue = [] }) ∷ r.subs;
      },
      ok (suc r.next_id),
    )
  ]

  -- The cancel function of a subscription.
  unfoldable pub unsubscribe : Repository P → ℕ → Repository P
  unfolding without
  unsubscribe r id = record r { subs = without id r.subs }
