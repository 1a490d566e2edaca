-- ===== src/Channel/Prepare/Steps.antt =====
-- What the steps of `PrepareInbound` (internal/infrastructure/persistence/memory/channel/init.go) and its
-- cleanup do to the actions of the repository.
use keelmesh.Prelude.{
  ℕ, suc, String, Map, ◌≡◌, inl, inr, refl, sym, ap, ◌∙◌, lookup, insert, lookup-insert,
  lookup-delete, eq_iff, trim, decimal, concat, Option, none, some, [], ◌∷◌, ◌||◌, ◌==◌, Result, ok,
  err, arith, if_cases, option_cases, result_cases, if◌then◌else◌, Bool-cases, Option-cases,
}
use keelmesh.Channel.Types.{InboundPreparation}
use keelmesh.Channel.Repository.{Repository, ActionEntry, ReactionAction, get}
use keelmesh.Channel.Actions.{
  start_typing, stop_typing, react_to_message, expire_reaction, apply_reaction, send_placeholder,
  new_action_id,
}
use keelmesh.Channel.Prepare.{
  optional, is_unsupported, begin_typing, begin_reaction, begin_placeholder,
}

-- The ids of `newActionID`.
abbrev pub action_id : String → ℕ → ℕ → String
action_id kind now n = concat (trim kind ∷ "-" ∷ decimal now ∷ "-" ∷ decimal n ∷ [])

-- Two repositories have the same actions.
abbrev pub SameActions : {P : Type 0} → Repository P → Repository P → Type 0
SameActions r r' =
    (id : String)
    → (lookup id r'.actions ≡ lookup id r.actions)
      × (lookup id r'.reactions ≡ lookup id r.reactions)

module _ {P : Type 0} (now : ℕ) where
  -- What the answer of a step says of the actions.
  abbrev Typed : Repository P → Repository P × Result String → Type 0
  Typed r (r', err e) = (r'.actions ≡ r.actions) × (r'.reactions ≡ r.reactions)
  Typed r (r', ok id) =
      (n : ℕ) × (entry : ActionEntry P) × (id ≡ action_id "typing" now n)
      × (r'.actions ≡ insert id entry r.actions)
      × (r'.reactions ≡ r.reactions)

  abbrev Reacted : Repository P → Repository P × Result String → Type 0
  Reacted r (r', err e) = (r'.actions ≡ r.actions) × (r'.reactions ≡ r.reactions)
  Reacted r (r', ok id) =
      (n : ℕ) × (entry : ReactionAction P) × (id ≡ action_id "reaction" now n)
      × (r'.actions ≡ r.actions)
      × (r'.reactions ≡ insert id entry r.reactions)

  start_typing-Typed :
      (r : Repository P) (channel_id target_id : String)
      → Typed r (start_typing r channel_id target_id now)
  unfolding start_typing new_action_id
  start_typing-Typed r channel_id target_id =
      result_cases (Typed r) (get r channel_id) (λ _ _. (refl, refl))
        λ c _.
          option_cases (Typed r) c.typing (λ _. (refl, refl))
            λ begin _.
              result_cases (Typed r) (begin r.platform target_id).1 (λ _ _. (refl, refl))
                λ stop _. (suc r.next_id, _, refl, refl, refl)

  react_to_message-Reacted :
      (r : Repository P) (channel_id target_id message_id reaction : String)
      → Reacted r (react_to_message r channel_id target_id message_id reaction now)
  unfolding react_to_message new_action_id
  react_to_message-Reacted r channel_id target_id message_id reaction =
      result_cases (Reacted r) (get r channel_id) (λ _ _. (refl, refl))
        λ c _.
          option_cases (Reacted r) c.react (λ _. (refl, refl))
            λ react _.
              result_cases (Reacted r) (react r.platform target_id message_id reaction).1
                (λ _ _. (refl, refl)) λ undo _. (suc r.next_id, _, refl, refl, refl)

  -- The same for a step that a channel may not support.
  abbrev pub BegunTyping : Repository P → Repository P × Result (Option String) → Type 0
  BegunTyping r (r', err e) = (r'.actions ≡ r.actions) × (r'.reactions ≡ r.reactions)
  BegunTyping r (r', ok none) = (r'.actions ≡ r.actions) × (r'.reactions ≡ r.reactions)
  BegunTyping r (r', ok (some id)) = Typed r (r', ok id)

  abbrev pub BegunReaction : Repository P → Repository P × Result (Option String) → Type 0
  BegunReaction r (r', err e) = (r'.actions ≡ r.actions) × (r'.reactions ≡ r.reactions)
  BegunReaction r (r', ok none) = (r'.actions ≡ r.actions) × (r'.reactions ≡ r.reactions)
  BegunReaction r (r', ok (some id)) = Reacted r (r', ok id)

  optional-BegunTyping :
      (r r' : Repository P) (answer : Result String)
      → Typed r (r', answer)
      → BegunTyping r (r', optional answer)
  optional-BegunTyping r r' (ok id) h = h
  optional-BegunTyping r r' (err e) h =
      if_cases (λ (a : Result (Option String)). BegunTyping r (r', a)) (is_unsupported e) (λ _. h)
        λ _. h

  optional-BegunReaction :
      (r r' : Repository P) (answer : Result String)
      → Reacted r (r', answer)
      → BegunReaction r (r', optional answer)
  optional-BegunReaction r r' (ok id) h = h
  optional-BegunReaction r r' (err e) h =
      if_cases (λ (a : Result (Option String)). BegunReaction r (r', a)) (is_unsupported e) (λ _. h)
        λ _. h

  pub begin_typing-Begun :
      (r : Repository P) (m : InboundPreparation) → BegunTyping r (begin_typing r m now)
  unfolding begin_typing
  begin_typing-Begun r m =
      if_cases (BegunTyping r) (m.target_id == "") (λ _. (refl, refl))
        λ _.
          let (r', answer) = start_typing r m.channel_id m.target_id now in
          optional-BegunTyping r r' answer (start_typing-Typed r m.channel_id m.target_id)

  pub begin_reaction-Begun :
      (r : Repository P) (m : InboundPreparation) → BegunReaction r (begin_reaction r m now)
  unfolding begin_reaction
  begin_reaction-Begun r m =
      if_cases (BegunReaction r) (m.reaction == "" || m.message_id == "" || m.target_id == "")
        (λ _. (refl, refl))
        λ _.
          let (r', answer) =
            react_to_message r m.channel_id m.target_id m.message_id m.reaction now in
          optional-BegunReaction r r' answer
            (react_to_message-Reacted r m.channel_id m.target_id m.message_id m.reaction)

module _ {P : Type 0} where
  send_placeholder-rest :
      (r : Repository P) (channel_id target_id reply_to content : String)
      → let r' = (send_placeholder r channel_id target_id reply_to content).0 in
        (r'.actions ≡ r.actions) × (r'.reactions ≡ r.reactions)
  unfolding send_placeholder
  send_placeholder-rest r channel_id target_id reply_to content =
      let Rest = λ (res : Repository P × Result String).
        (res.0.actions ≡ r.actions) × (res.0.reactions ≡ r.reactions) in
      result_cases Rest (get r channel_id) (λ _ _. (refl, refl))
        λ c _. option_cases Rest c.placeholder (λ _. (refl, refl)) λ _ _. (refl, refl)

  pub begin_placeholder-rest :
      (r : Repository P) (m : InboundPreparation)
      → let r' = (begin_placeholder r m).0 in
        (r'.actions ≡ r.actions) × (r'.reactions ≡ r.reactions)
  unfolding begin_placeholder
  begin_placeholder-rest r m =
      if_cases
        (λ (res : Repository P × Result (Option String)).
          (res.0.actions ≡ r.actions) × (res.0.reactions ≡ r.reactions))
        (m.placeholder == "" || m.target_id == "") (λ _. (refl, refl))
        λ _. send_placeholder-rest r m.channel_id m.target_id m.reply_to m.placeholder

  pub lookup-stop :
      (r : Repository P) (id j : String)
      → (lookup j (stop_typing r id).0.actions ≡ (if id == j then none else lookup j r.actions))
        × ((stop_typing r id).0.reactions ≡ r.reactions)
  unfolding stop_typing
  lookup-stop r id j = elim (Option-cases (lookup id r.actions)) [
    | inl absent ↦ (
      ground (arith, absent, eq_iff id j, λ (k : String). lookup k r.actions),
      ground (arith, absent),
    )
    | inr (entry, found) ↦
        (ground (arith, found, lookup-delete id j r.actions), ground (arith, found))
  ]

  pub lookup-expire :
      (r : Repository P) (id j : String)
      → (lookup j (expire_reaction r id).0.reactions
          ≡ (if id == j then none else lookup j r.reactions))
        × ((expire_reaction r id).0.actions ≡ r.actions)
  unfolding apply_reaction
  lookup-expire r id j = elim (Option-cases (lookup id r.reactions)) [
    | inl absent ↦ (
      ground (arith, absent, eq_iff id j, λ (k : String). lookup k r.reactions),
      ground (arith, absent),
    )
    | inr (action, found) ↦
        (ground (arith, found, lookup-delete id j r.reactions), ground (arith, found))
  ]

-- What the cleanup takes out again, a lookup at a time.
pub undone :
    {A : Type 0} (id j : String) (entry : A) (old new cleaned : Map A)
    → lookup id old ≡ none
    → new ≡ insert id entry old
    → lookup j cleaned ≡ (if id == j then none else lookup j new)
    → lookup j cleaned ≡ lookup j old
undone id j entry old new cleaned fresh put out = elim (Bool-cases (id == j)) [
  | inl hit ↦
      let same : id ≡ j = (eq_iff id j).0 hit in
      ground (arith, out, hit) ∙ sym (ap (λ k. lookup k old) (sym same) ∙ fresh)
  | inr miss ↦
      let kept : lookup j cleaned ≡ lookup j new = ground (arith, out, miss) in
      kept ∙ ap (lookup j) put ∙ ground (arith, lookup-insert id j entry old, miss)
]
