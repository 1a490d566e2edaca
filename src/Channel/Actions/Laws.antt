-- ===== src/Channel/Actions/Laws.antt =====
-- The actions and the streaming messages of internal/infrastructure/persistence/memory/channel, called
-- twice.
use keelmesh.Prelude.{
  ℕ, String, Bool, true, false, ◌≡◌, lookup, lookup-insert_self, lookup-delete, eq_refl, none, some,
  [], ◌∷◌, ok, errorf, arith, eq_iff, Option-cases, inl, inr,
}
use keelmesh.Channel.Repository.{Repository, get}
use keelmesh.Channel.Types.{Channel}
use keelmesh.Channel.Actions.{
  lifecycle_key, lifecycle_state, end_lifecycle, apply_reaction, stop_typing, ensure_streaming_open,
  update_streaming_message, finish_streaming_message,
}

module _ {P : Type 0} where
  -- A reaction is completed or expired once: after a call that found it, neither call finds it.
  pub apply_reaction_once :
      (r : Repository P) (id : String) (first second : Bool)
      → (apply_reaction r id first).1 ≡ true
      → let r' = (apply_reaction r id first).0 in apply_reaction r' id second ≡ (r', false)
  unfolding apply_reaction
  apply_reaction_once r id first second e =
      ground (arith, lookup-delete id id r.reactions, eq_refl id)

  -- A typing action is stopped once: after a call that found it, no call finds it.
  pub stop_typing_once :
      (r : Repository P) (id : String)
      → (stop_typing r id).1 ≡ true
      → let r' = (stop_typing r id).0 in stop_typing r' id ≡ (r', false)
  unfolding stop_typing
  stop_typing_once r id e = ground (arith, lookup-delete id id r.actions, eq_refl id)

  finished_state :
      (r : Repository P) (channel_id target_id message_id content : String) (now : ℕ)
      → (finish_streaming_message r channel_id target_id message_id content now).1 ≡ none
      → lifecycle_state
          (finish_streaming_message r channel_id target_id message_id content now).0
          (lifecycle_key channel_id target_id message_id)
        ≡ "final"
  unfolding finish_streaming_message lifecycle_state
  finished_state r channel_id target_id message_id content now e =
      let key = lifecycle_key channel_id target_id message_id in
      ground
        (arith, lookup-insert_self key (record { state = "final"; created_at = now }) r.lifecycle)

  finished_get :
      (r : Repository P) (channel_id target_id message_id content : String) (now : ℕ)
      → (finish_streaming_message r channel_id target_id message_id content now).1 ≡ none
      → (c : Channel P) × (get
            (finish_streaming_message r channel_id target_id message_id content now).0
            channel_id
          ≡ ok c)
  unfolding finish_streaming_message get end_lifecycle
  finished_get r channel_id target_id message_id content now e =
      elim (Option-cases (lookup channel_id r.registry)) [
        | inl absent ↦ absurd (ground (arith, absent))
        | inr (c, found) ↦ (c, ground (arith, found))
      ]

  final_refused :
      (r : Repository P) (channel_id target_id message_id content : String) (c : Channel P)
      → get r channel_id ≡ ok c
      → lifecycle_state r (lifecycle_key channel_id target_id message_id) ≡ "final"
      → update_streaming_message r channel_id target_id message_id content ≡ (
        r,
        some (errorf "channelcore: message %q lifecycle is already %s" (message_id ∷ "final" ∷ [])),
      )
  unfolding update_streaming_message ensure_streaming_open
  final_refused r channel_id target_id message_id content c found state =
      let ended = lifecycle_state r (lifecycle_key channel_id target_id message_id) in
      ground (arith, found, state, eq_iff ended "final")

  -- Where a streaming message was finished without an error, an update of it that comes next, with
  -- nothing in between, is refused, and neither the repository nor the platform is touched.
  pub finish-update_refused :
      (r : Repository P) (channel_id target_id message_id content content' : String) (now : ℕ)
      → (finish_streaming_message r channel_id target_id message_id content now).1 ≡ none
      → let r' = (finish_streaming_message r channel_id target_id message_id content now).0 in
        update_streaming_message r' channel_id target_id message_id content' ≡ (
          r',
          some (
              errorf "channelcore: message %q lifecycle is already %s" (message_id ∷ "final" ∷ [])),
        )
  finish-update_refused r channel_id target_id message_id content content' now e =
      let (c, found) = finished_get r channel_id target_id message_id content now e in
      final_refused _ channel_id target_id message_id content' c found
        (finished_state r channel_id target_id message_id content now e)
