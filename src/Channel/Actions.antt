-- ===== src/Channel/Actions.antt =====
-- internal/infrastructure/persistence/memory/channel: typing and reaction actions (start_typing.go,
-- stop_typing.go, react_to_message.go, complete_reaction.go, expire_reaction.go), edits and their
-- lifecycle (edit_message.go), placeholders and streaming messages.
pub mod Laws
use keelmesh.Prelude.{
  ℕ, suc, ◌-◌, ◌<◌, String, Bool, true, false, ◌&&◌, ◌||◌, not, Map, lookup, insert, delete, trim,
  decimal, concat, Option, none, some, List, [], ◌∷◌, ltb, ◌==◌, if◌then◌else◌, Result, ok, err,
  Error, errorf, wrap, join, is,
}
use keelmesh.Channel.Types.{
  Channel, Outbound, StreamingController, InboundPreparation, PreparationReceipt,
}
use keelmesh.Channel.Repository.{
  Repository, ActionEntry, ReactionAction, LifecycleEntry, IdempotencyEntry, get, unsupported,
  half_hour,
}
use keelmesh.Channel.Send.{record_separator, send}

unfoldable pub lifecycle_key : String → String → String → String
lifecycle_key channel_id target_id message_id =
    concat (channel_id ∷ record_separator ∷ target_id ∷ record_separator ∷ message_id ∷ [])

abbrev pub ends_lifecycle : String → Bool
ends_lifecycle state = state == "final" || state == "failed"

module _ {P : Type 0} where
  abbrev pub on_platform : Repository P → P → Repository P
  on_platform r p = record r { platform = p }

  -- `newActionID`.
  unfoldable pub new_action_id : Repository P → String → ℕ → Repository P × String
  new_action_id r kind now = (
    record r { next_id = suc r.next_id },
    concat (trim kind ∷ "-" ∷ decimal now ∷ "-" ∷ decimal (suc r.next_id) ∷ []),
  )

  unfoldable pub start_typing : Repository P → String → String → ℕ → Repository P × Result String
  unfolding new_action_id
  start_typing r channel_id target_id now = elim (get r channel_id) [
    | err e ↦ (r, err e)
    | ok c ↦ elim c.typing [
      | none ↦
          (r, err (wrap "%w: channel %q does not support typing" (channel_id ∷ []) unsupported))
      | some start ↦
          let (platform, answer) = start r.platform target_id in
          elim answer [
            | err e ↦ (on_platform r platform, err e)
            | ok stop ↦
                let (r', id) = new_action_id (on_platform r platform) "typing" now in
                (
                  record r' {
                    actions = insert id (record { stop = stop; created_at = now }) r'.actions;
                  },
                  ok id,
                )
          ]
    ]
  ]

  unfoldable pub stop_typing : Repository P → String → Repository P × Bool
  stop_typing r id = elim (lookup id r.actions) [
    | none ↦ (r, false)
    | some entry ↦
        (record r { actions = delete id r.actions; platform = entry.stop r.platform }, true)
  ]

  unfoldable pub react_to_message :
      Repository P → String → String → String → String → ℕ → Repository P × Result String
  unfolding new_action_id
  react_to_message r channel_id target_id message_id reaction now = elim (get r channel_id) [
    | err e ↦ (r, err e)
    | ok c ↦ elim c.react [
      | none ↦
          (r, err (wrap "%w: channel %q does not support reactions" (channel_id ∷ []) unsupported))
      | some react ↦
          let (platform, answer) = react r.platform target_id message_id reaction in
          elim answer [
            | err e ↦ (on_platform r platform, err e)
            | ok (complete, expire) ↦
                let (r', id) = new_action_id (on_platform r platform) "reaction" now in
                (
                  record r' {
                    reactions =
                        insert id
                          (record { complete = complete; expire = expire; created_at = now })
                          r'.reactions;
                  },
                  ok id,
                )
          ]
    ]
  ]

  unfoldable pub apply_reaction : Repository P → String → Bool → Repository P × Bool
  apply_reaction r id complete = elim (lookup id r.reactions) [
    | none ↦ (r, false)
    | some action ↦ (
      record r {
        reactions = delete id r.reactions;
        platform = if complete then action.complete r.platform else action.expire r.platform;
      },
      true,
    )
  ]

  abbrev pub complete_reaction : Repository P → String → Repository P × Bool
  complete_reaction r id = apply_reaction r id true

  abbrev pub expire_reaction : Repository P → String → Repository P × Bool
  expire_reaction r id = apply_reaction r id false

  unfoldable pub send_placeholder :
      Repository P → String → String → String → String → Repository P × Result String
  send_placeholder r channel_id target_id reply_to content = elim (get r channel_id) [
    | err e ↦ (r, err e)
    | ok c ↦ elim c.placeholder [
      | none ↦ (
        r,
        err (wrap "%w: channel %q does not support placeholders" (channel_id ∷ []) unsupported),
      )
      | some show ↦
          let (platform, answer) = show r.platform target_id reply_to content in
          (on_platform r platform, answer)
    ]
  ]

  -- The state that an edit or a streaming message ended in; empty where there is none.
  unfoldable pub lifecycle_state : Repository P → String → String
  lifecycle_state r key = elim (lookup key r.lifecycle) [ none ↦ "" | some entry ↦ entry.state ]

  unfoldable pub end_lifecycle : Repository P → String → String → ℕ → Repository P
  end_lifecycle r key state now = record r {
    lifecycle = insert key (record { state = state; created_at = now }) r.lifecycle;
  }

  -- The platform's edit, by the richest interface that the channel has.
  unfoldable pub edit_on :
      Repository P
      → Channel P
      → String
      → String
      → String
      → String
      → String
      → Map String
      → Repository P × Option Error
  edit_on r c channel_id target_id message_id content state metadata = elim c.edit_with_state [
    | some edit ↦
        let (p, failure) = edit r.platform target_id message_id content state metadata in
        (on_platform r p, failure)
    | none ↦ elim c.edit [
      | none ↦ (
        r,
        some (errorf "channelcore: channel %q does not support message editing" (channel_id ∷ [])),
      )
      | some edit ↦
          let (p, failure) = edit r.platform target_id message_id content in
          (on_platform r p, failure)
    ]
  ]

  -- The fallback of an edit on a channel that is not there.
  unfoldable pub edit_fallback :
      Repository P → Error → Outbound → String → ℕ → Repository P × Option Error
  edit_fallback r e m message_id now =
      let (r', answer) = send r m now in
      elim answer [
        | ok _ ↦ (r', none)
        | err e' ↦ (
          r',
          some (
              wrap "channelcore: edit message %q failed; fallback send failed: %w" (message_id ∷ [])
                (join e e')),
        )
      ]

  unfoldable pub edit_message :
      Repository P
      → String
      → String
      → String
      → String
      → String
      → Map String
      → ℕ
      → Repository P × Option Error
  unfolding edit_on edit_fallback lifecycle_state end_lifecycle
  edit_message r channel_id target_id message_id content state_text metadata now =
      let key = lifecycle_key channel_id target_id message_id in
      let state = trim state_text in
      let ended = lifecycle_state r key in
      if not (ended == "") && not (state == "") && not (state == ended)
      then (
        r,
        some (errorf "channelcore: message %q lifecycle is already %s" (message_id ∷ ended ∷ [])),
      )
      else elim (get r channel_id) [
        | err e ↦
            if ends_lifecycle state
            then edit_fallback r e
                (record {
                  id = "";
                  channel_id = channel_id;
                  target_id = target_id;
                  reply_to = message_id;
                  content = content;
                  metadata = metadata;
                  idempotency_key = "";
                })
                message_id now
            else (r, some e)
        | ok c ↦
            let (r', failure) =
              edit_on r c channel_id target_id message_id content state metadata in
            elim failure [
              | some e ↦ (r', some e)
              | none ↦ (if ends_lifecycle state then end_lifecycle r' key state now else r', none)
            ]
      ]

  unfoldable pub ensure_streaming_open : Repository P → String → String → String → Option Error
  unfolding lifecycle_state
  ensure_streaming_open r channel_id target_id message_id =
      let ended = lifecycle_state r (lifecycle_key channel_id target_id message_id) in
      if ends_lifecycle ended
      then some (errorf "channelcore: message %q lifecycle is already %s" (message_id ∷ ended ∷ []))
      else none

  unfoldable pub start_streaming_message :
      Repository P → String → String → String → String → Repository P × Result String
  start_streaming_message r channel_id target_id reply_to content = elim (get r channel_id) [
    | err e ↦ (r, err e)
    | ok c ↦ elim c.streaming [
      | none ↦ (
        r,
        err (
            errorf "channelcore: channel %q does not support streaming messages" (channel_id ∷ [])),
      )
      | some control ↦
          let (p, answer) = control.start r.platform target_id reply_to content in
          (on_platform r p, answer)
    ]
  ]

  unfoldable pub update_streaming_message :
      Repository P → String → String → String → String → Repository P × Option Error
  unfolding ensure_streaming_open
  update_streaming_message r channel_id target_id message_id content = elim (get r channel_id) [
    | err e ↦ (r, some e)
    | ok c ↦ elim (ensure_streaming_open r channel_id target_id message_id) [
      | some e ↦ (r, some e)
      | none ↦ elim c.streaming [
        | none ↦ (
          r,
          some (
              errorf "channelcore: channel %q does not support streaming messages"
                (channel_id ∷ [])),
        )
        | some control ↦
            let (p, failure) = control.update r.platform target_id message_id content in
            (on_platform r p, failure)
      ]
    ]
  ]

  unfoldable pub finish_streaming_message :
      Repository P → String → String → String → String → ℕ → Repository P × Option Error
  unfolding ensure_streaming_open end_lifecycle
  finish_streaming_message r channel_id target_id message_id content now = elim (get r channel_id) [
    | err e ↦ (r, some e)
    | ok c ↦ elim c.streaming [
      | none ↦ (
        r,
        some (
            errorf "channelcore: channel %q does not support streaming messages" (channel_id ∷ [])),
      )
      | some control ↦ elim (ensure_streaming_open r channel_id target_id message_id) [
        | some e ↦ (r, some e)
        | none ↦
            let (p, failure) = control.finish r.platform target_id message_id content in
            elim failure [
              | some e ↦ (on_platform r p, some e)
              | none ↦ (
                end_lifecycle (on_platform r p) (lifecycle_key channel_id target_id message_id)
                    "final" now,
                none,
              )
            ]
      ]
    ]
  ]
