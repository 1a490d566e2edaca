-- ===== src/Channel/Prepare.antt =====
-- internal/infrastructure/persistence/memory/channel/init.go: `PrepareInbound`. `now` is the clock's
-- answer to its calls.
pub mod Steps
pub mod Laws
use keelmesh.Prelude.{
  ℕ, String, Bool, ◌||◌, not, Option, none, some, ◌==◌, if◌then◌else◌, Result, ok, err, Error, is,
}
use keelmesh.Channel.Types.{InboundPreparation, PreparationReceipt}
use keelmesh.Channel.Repository.{Repository}
use keelmesh.Channel.Actions.{
  start_typing, stop_typing, react_to_message, expire_reaction, send_placeholder,
}

-- `errors.Is(err, ErrUnsupported)`.
abbrev pub is_unsupported : Error → Bool
is_unsupported e = is e "channelcore: capability unsupported"

-- The answer of a step that a channel may not support.
abbrev pub optional : Result String → Result (Option String)
optional (ok id) = ok (some id)
optional (err e) = if is_unsupported e then ok none else err e

-- A field of the receipt.
abbrev pub or_empty : Option String → String
or_empty none = ""
or_empty (some id) = id

abbrev pub receipt_of : Option String → Option String → Option String → PreparationReceipt
receipt_of typing reaction placeholder = record {
  typing_action = or_empty typing;
  reaction_action = or_empty reaction;
  placeholder_message = or_empty placeholder;
}

module _ {P : Type 0} where
  -- The typing action, where there is a target.
  unfoldable pub begin_typing :
      Repository P → InboundPreparation → ℕ → Repository P × Result (Option String)
  unfolding start_typing
  begin_typing r m now =
      if m.target_id == ""
      then (r, ok none)
      else let (r', answer) = start_typing r m.channel_id m.target_id now in (r', optional answer)

  -- The reaction, where there are a reaction, a message and a target.
  unfoldable pub begin_reaction :
      Repository P → InboundPreparation → ℕ → Repository P × Result (Option String)
  unfolding react_to_message
  begin_reaction r m now =
      if m.reaction == "" || m.message_id == "" || m.target_id == ""
      then (r, ok none)
      else let (r', answer) =
          react_to_message r m.channel_id m.target_id m.message_id m.reaction now in
        (r', optional answer)

  -- The placeholder, where there are its content and a target.
  unfoldable pub begin_placeholder :
      Repository P → InboundPreparation → Repository P × Result (Option String)
  unfolding send_placeholder
  begin_placeholder r m =
      if m.placeholder == "" || m.target_id == ""
      then (r, ok none)
      else let (r', answer) =
          send_placeholder r m.channel_id m.target_id m.reply_to m.placeholder in
        (r', optional answer)

  -- The functions of `cleanup`: there is one for each id that a step gave.
  abbrev pub undo_typing : Repository P → Option String → Repository P
  undo_typing r none = r
  undo_typing r (some id) = (stop_typing r id).0

  abbrev pub undo_reaction : Repository P → Option String → Repository P
  undo_reaction r none = r
  undo_reaction r (some id) = (expire_reaction r id).0

  -- From the placeholder on.
  unfoldable pub prepare_placeholder :
      Repository P
      → InboundPreparation
      → Option String
      → Option String
      → Repository P × PreparationReceipt × Option Error
  unfolding begin_placeholder
  prepare_placeholder r m typing reaction =
      let (r', answer) = begin_placeholder r m in
      elim answer [
        | err e ↦ (
          undo_reaction (undo_typing r' typing) reaction,
          receipt_of typing reaction none,
          some e,
        )
        | ok id ↦ (r', receipt_of typing reaction id, none)
      ]

  -- From the reaction on.
  unfoldable pub prepare_reaction :
      Repository P
      → InboundPreparation
      → Option String
      → ℕ
      → Repository P × PreparationReceipt × Option Error
  unfolding begin_reaction prepare_placeholder
  prepare_reaction r m typing now =
      let (r', answer) = begin_reaction r m now in
      elim answer [
        | err e ↦ (undo_typing r' typing, receipt_of typing none none, some e)
        | ok reaction ↦ prepare_placeholder r' m typing reaction
      ]

  unfoldable pub prepare_inbound :
      Repository P → InboundPreparation → ℕ → Repository P × PreparationReceipt × Option Error
  unfolding begin_typing prepare_reaction
  prepare_inbound r m now =
      let (r', answer) = begin_typing r m now in
      elim answer [
        | err e ↦ (r', receipt_of none none none, some e)
        | ok typing ↦ prepare_reaction r' m typing now
      ]
