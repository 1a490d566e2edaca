-- ===== src/Channel/Prepare/Laws.antt =====
-- What a failed `PrepareInbound` of internal/infrastructure/persistence/memory/channel/init.go leaves of
-- its actions.
use keelmesh.Prelude.{
  ℕ, String, ◌≡◌, refl, ap, ◌∙◌, subst, lookup, insert, Option, none, some, ok, err, Error, arith,
  result_cases,
}
use keelmesh.Channel.Types.{InboundPreparation, PreparationReceipt}
use keelmesh.Channel.Repository.{Repository}
use keelmesh.Channel.Prepare.{
  begin_typing, begin_reaction, begin_placeholder, undo_typing, undo_reaction, prepare_placeholder,
  prepare_reaction, prepare_inbound,
}
use keelmesh.Channel.Prepare.Steps.{
  action_id, SameActions, BegunTyping, BegunReaction, begin_typing-Begun, begin_reaction-Begun,
  begin_placeholder-rest, lookup-stop, lookup-expire, undone,
}

-- No action has an id of the present time, whatever its number.
abbrev pub IsFresh : {P : Type 0} → Repository P → ℕ → Type 0
IsFresh r now =
    (n : ℕ)
    → (lookup (action_id "typing" now n) r.actions ≡ none)
      × (lookup (action_id "reaction" now n) r.reactions ≡ none)

module _ {P : Type 0} (r : Repository P) (m : InboundPreparation) (now : ℕ)
    (fresh : IsFresh r now) where
  -- The typing action is undone, in a repository whose actions are those after it began.
  typing-undone :
      (begun later : Repository P) (typing : Option String)
      → BegunTyping now r (begun, ok typing)
      → later.actions ≡ begun.actions
      → (j : String)
      → (lookup j (undo_typing later typing).actions ≡ lookup j r.actions)
        × ((undo_typing later typing).reactions ≡ later.reactions)
        × (begun.reactions ≡ r.reactions)
  typing-undone begun later none h same j = (ap (lookup j) (same ∙ h.0), refl, h.1)
  typing-undone begun later (some id) (n, entry, named, put, rest) same j =
      let (out, kept) = lookup-stop later id j in
      let gone : lookup id r.actions ≡ none = ap (λ k. lookup k r.actions) named ∙ (fresh n).0 in
      (undone id j entry r.actions later.actions _ gone (same ∙ put) out, kept, rest)

  cleaned :
      (begun reacted later : Repository P) (typing reaction : Option String)
      → BegunTyping now r (begun, ok typing)
      → BegunReaction now begun (reacted, ok reaction)
      → later.actions ≡ reacted.actions
      → later.reactions ≡ reacted.reactions
      → SameActions r (undo_reaction (undo_typing later typing) reaction)
  cleaned begun reacted later typing none typed h actions reactions j =
      let (gone, kept, rest) = typing-undone begun later typing typed (actions ∙ h.0) j in
      (gone, ap (lookup j) (kept ∙ reactions ∙ h.1 ∙ rest))
  cleaned begun reacted later typing (some id) typed (n, entry, named, same, put) actions reactions
        j =
      let (gone, kept, rest) = typing-undone begun later typing typed (actions ∙ same) j in
      let u = undo_typing later typing in
      let (out, kept') = lookup-expire u id j in
      let unused = ap (λ k. lookup k r.reactions) named ∙ (fresh n).1 in
      (
        ap (lookup j) kept' ∙ gone,
        undone id j entry r.reactions u.reactions _ unused
            (kept ∙ reactions ∙ put ∙ ap (insert id entry) rest) out,
      )

  -- A preparation that failed has the actions of before.
  abbrev Restores : Repository P × PreparationReceipt × Option Error → Type 0
  Restores res = (e : Error) → res.2 ≡ some e → SameActions r res.0

  prepare_placeholder-Restores :
      (begun reacted : Repository P) (typing reaction : Option String)
      → BegunTyping now r (begun, ok typing)
      → BegunReaction now begun (reacted, ok reaction)
      → Restores (prepare_placeholder reacted m typing reaction)
  unfolding prepare_placeholder
  prepare_placeholder-Restores begun reacted typing reaction typed answered =
      let (actions, reactions) = begin_placeholder-rest reacted m in
      result_cases Restores (begin_placeholder reacted m).1
        (λ _ _ _ _.
          cleaned begun reacted (begin_placeholder reacted m).0 typing reaction typed answered
            actions reactions)
        λ _ _ e h. absurd (ground (arith, h))

  prepare_reaction-Restores :
      (begun : Repository P) (typing : Option String)
      → BegunTyping now r (begun, ok typing)
      → Restores (prepare_reaction begun m typing now)
  unfolding prepare_reaction
  prepare_reaction-Restores begun typing typed =
      let (reacted, answer) = begin_reaction begun m now in
      let step = begin_reaction-Begun now begun m in
      result_cases Restores answer
        (λ x failed _ _.
          let same : BegunReaction now begun (reacted, err x) =
            subst (λ a. BegunReaction now begun (reacted, a)) failed step in
          cleaned begun reacted reacted typing none typed same refl refl)
        λ reaction done.
          prepare_placeholder-Restores begun reacted typing reaction typed
            (subst (λ a. BegunReaction now begun (reacted, a)) done step)

  -- A preparation that fails leaves no action behind: where no action of the repository has an id of the
  -- present time, a `PrepareInbound` that returns an error leaves every typing and every reaction
  -- action as it was before, the ones that it began itself are gone.
  pub prepare_inbound-SameActions :
      (e : Error) → (prepare_inbound r m now).2 ≡ some e → SameActions r (prepare_inbound r m now).0
  unfolding prepare_inbound
  prepare_inbound-SameActions =
      let (begun, answer) = begin_typing r m now in
      let step = begin_typing-Begun now r m in
      result_cases Restores answer
        (λ x failed _ _ j.
          let same : BegunTyping now r (begun, err x) =
            subst (λ a. BegunTyping now r (begun, a)) failed step in
          (ap (lookup j) same.0, ap (lookup j) same.1))
        λ typing done.
          prepare_reaction-Restores begun typing
            (subst (λ a. BegunTyping now r (begun, a)) done step)
