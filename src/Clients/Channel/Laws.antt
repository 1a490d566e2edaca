-- ===== src/Clients/Channel/Laws.antt =====
-- What GateCore delivers through internal/infrastructure/channelclient/client.go, where ChannelCore
-- answers with the handlers of internal/application/channel.
use keelmesh.Prelude.{
  ℕ, ◌+◌, ◌≤◌, String, true, false, not, ◌≡◌, refl, sym, ap, ◌∙◌, subst, value_at, blank, lookup,
  Option, none, some, Result, ok, err, Error, arith, if_cases, option_cases, result_cases, ◌||◌,
  ◌==◌, Result-cases, Bool-cases, inl, inr, trim, ltb, length,
}
use keelmesh.Gate.Types.{Task, ExecutionResult}
use keelmesh.Gate.Service.{Service}
use keelmesh.Channel.Types.{Channel, Outbound, Receipt}
use keelmesh.Channel.Repository.{
  Repository, channel_not_found, get, half_hour, record_delivery, record_delivery_as,
  delete_delivery,
}
use keelmesh.Channel.Send.{
  send, send_authorized, send_new, enqueue, authorize, previous, idempotency_id, remember, with_id,
  forget,
}
use keelmesh.Channel.Send.Laws.{send_authorized-once}
use keelmesh.Api.Send.{send_message, edit, outbound}
use keelmesh.Clients.Channel.{ChannelApi, dispatch, result_message}

-- The error of an answer.
abbrev failure_of : {R A : Type 0} → R × Result A → R × Option Error
failure_of (r, ok a) = (r, none)
failure_of (r, err e) = (r, some e)

-- ChannelCore, called without a loss in between, at the time `now`.
abbrev pub direct : {P : Type 0} → ℕ → ChannelApi (Repository P)
direct now = record {
  edit_message = λ r request. failure_of (edit r request now);
  send_message = λ r request. failure_of (send_message r request now);
}

-- The message by which a task's result is sent.
abbrev pub message_of : Task → ExecutionResult → Outbound
message_of task result = outbound (result_message task result.content)

module _ {P : Type 0} where
  -- What a repository checks of a message, apart from its idempotency.
  abbrev IsFit : Repository P → Outbound → Type 0
  IsFit r m =
      ((blank m.channel_id || blank m.target_id || blank m.content) ≡ false)
      × ((c : Channel P) × (get r m.channel_id ≡ ok c) × (c.definition.enabled ≡ true))
      × (authorize r m ≡ none)

  send_fit :
      (r : Repository P) (m : Outbound) (now : ℕ)
      → IsFit r m
      → send r m now ≡ send_authorized r m now
  unfolding send
  send_fit r m now (complete, (c, found, on), free) = ground (arith, complete, found, on, free)

  send-IsFit :
      (r : Repository P) (m : Outbound) (now : ℕ) (receipt : Receipt)
      → (send r m now).1 ≡ ok receipt
      → IsFit r m
  unfolding send
  send-IsFit r m now receipt =
      let Fits = λ (res : Repository P × Result Receipt). res.1 ≡ ok receipt → IsFit r m in
      if_cases Fits (blank m.channel_id || blank m.target_id || blank m.content)
        (λ _ e. absurd (ground (arith, e)))
        λ complete.
          result_cases Fits (get r m.channel_id) (λ _ _ e. absurd (ground (arith, e)))
            λ c found.
              if_cases Fits (not c.definition.enabled) (λ _ e. absurd (ground (arith, e)))
                λ on.
                  option_cases Fits (authorize r m)
                    (λ free _. (complete, (c, found, ground (arith, on)), free))
                    λ _ _ e. absurd (ground (arith, e))

  -- A message that is taken leaves the registry and the authorizer alone.
  enqueue-rest :
      (r : Repository P) (m : Outbound) (now : ℕ)
      → ((enqueue r m now).0.registry ≡ r.registry)
        × ((enqueue r m now).0.authorizer ≡ r.authorizer)
  unfolding enqueue forget record_delivery record_delivery_as delete_delivery
  enqueue-rest r m now =
      let Rest = λ (res : Repository P × Result Receipt).
        (res.0.registry ≡ r.registry) × (res.0.authorizer ≡ r.authorizer) in
      option_cases Rest (lookup m.channel_id r.workers) (λ _. ground arith)
        λ worker _.
          if_cases Rest (ltb (length worker.text) worker.size) (λ _. (refl, refl)) λ _. ground arith

  send_authorized-rest :
      (r : Repository P) (m : Outbound) (now : ℕ)
      → ((send_authorized r m now).0.registry ≡ r.registry)
        × ((send_authorized r m now).0.authorizer ≡ r.authorizer)
  unfolding send_authorized send_new
  send_authorized-rest r m now =
      let Rest = λ (res : Repository P × Result Receipt).
        (res.0.registry ≡ r.registry) × (res.0.authorizer ≡ r.authorizer) in
      let m' = with_id m now in
      if_cases Rest (blank m.idempotency_key)
        (λ _.
          if_cases Rest (blank m'.idempotency_key) (λ _. enqueue-rest r m' now)
            λ _. enqueue-rest (remember r _ m'.id now) m' now)
        λ _.
          option_cases Rest (previous r (idempotency_id m.channel_id (trim m.idempotency_key)) now)
            (λ _.
              if_cases Rest (blank m'.idempotency_key) (λ _. enqueue-rest r m' now)
                λ _. enqueue-rest (remember r _ m'.id now) m' now)
            λ _ _. (refl, refl)

  get-registry :
      (r r' : Repository P) (id : String) → r'.registry ≡ r.registry → get r' id ≡ get r id
  unfolding get
  get-registry r r' id same =
      ap (λ reg. elim (lookup id reg) [ none ↦ err channel_not_found | some c ↦ ok c ]) same

  authorize-authorizer :
      (r r' : Repository P) (m : Outbound)
      → r'.authorizer ≡ r.authorizer
      → authorize r' m ≡ authorize r m
  unfolding authorize
  authorize-authorizer r r' m same = ap (λ a. elim a [ none ↦ none | some check ↦ check m ]) same

  -- A second `Send` of a message that was taken, within half an hour.
  resend :
      (r : Repository P) (m : Outbound) (given : Receipt) (now later : ℕ)
      → blank m.idempotency_key ≡ false
      → previous r (idempotency_id m.channel_id (trim m.idempotency_key)) now ≡ none
      → (send r m now).1 ≡ ok given
      → later ≤ now + half_hour
      → (again : Receipt) × (send (send r m now).0 m later ≡ ((send r m now).0, ok again))
  resend r m given now later keyed fresh taken soon =
      let (complete, (c, found, on), free) = send-IsFit r m now given taken in
      let sent = send_fit r m now (complete, (c, found, on), free) in
      let r' = (send_authorized r m now).0 in
      let (registry, authorizer) = send_authorized-rest r m now in
      let fit' : IsFit r' m = (
        complete,
        (c, get-registry r r' m.channel_id registry ∙ found, on),
        authorize-authorizer r r' m authorizer ∙ free,
      ) in
      let (again, e, _) =
        send_authorized-once r m m given now later keyed fresh
          (ap (λ res. res.1) (sym sent) ∙ taken) keyed refl soon in
      (
        again,
        subst (λ q. send q m later ≡ (q, ok again)) (sym (ap (λ res. res.0) sent))
            (send_fit r' m later fit' ∙ e),
      )

  -- A task without a placeholder is dispatched by a `Send` of its message.
  dispatch-send :
      (r : Repository P) (task : Task) (result : ExecutionResult) (now : ℕ)
      → (value_at "placeholder_message_id" task.metadata == "") ≡ true
      → (dispatch (direct now) r task result).1 ≡ none
      → (given : Receipt) × ((send r (message_of task result) now).1 ≡ ok given)
        × ((dispatch (direct now) r task result).0 ≡ (send r (message_of task result) now).0)
  unfolding dispatch send_message
  dispatch-send r task result now unplaced done =
      elim (Result-cases (send r (message_of task result) now).1) [
        | inl (e, bad) ↦ absurd (ground (arith, bad, unplaced, done))
        | inr (given, good) ↦ (given, good, ground (arith, good, unplaced, done))
      ]

  dispatch-sent :
      (r : Repository P) (task : Task) (result : ExecutionResult) (now : ℕ) (given : Receipt)
      → (value_at "placeholder_message_id" task.metadata == "") ≡ true
      → (result.content == "") ≡ false
      → (send r (message_of task result) now).1 ≡ ok given
      → dispatch (direct now) r task result ≡ ((send r (message_of task result) now).0, none)
  unfolding dispatch send_message
  dispatch-sent r task result now given unplaced filled good =
      ground (arith, good, unplaced, filled)

  dispatch-filled :
      (r : Repository P) (task : Task) (result : ExecutionResult) (now : ℕ)
      → (dispatch (direct now) r task result).1 ≡ none
      → (result.content == "") ≡ false
  unfolding dispatch
  dispatch-filled r task result now done = elim (Bool-cases (result.content == "")) [
    | inl empty ↦ absurd (ground (arith, empty, done))
    | inr filled ↦ filled
  ]

  -- A result that is dispatched again goes out once: where the outbox hands the same result of a
  -- task without a placeholder, with an id that is not blank, to ChannelCore a second time within
  -- half an hour of a dispatch that succeeded, and before that dispatch no message of the last
  -- half hour had the task's id as its idempotency key, then the second dispatch succeeds and
  -- changes nothing in ChannelCore.
  pub dispatch_once :
      (r : Repository P) (task : Task) (result : ExecutionResult) (now later : ℕ)
      → (value_at "placeholder_message_id" task.metadata == "") ≡ true
      → blank task.id ≡ false
      → previous r (idempotency_id task.channel_id (trim task.id)) now ≡ none
      → (dispatch (direct now) r task result).1 ≡ none
      → later ≤ now + half_hour
      → let r' = (dispatch (direct now) r task result).0 in
        dispatch (direct later) r' task result ≡ (r', none)
  unfolding outbound result_message
  dispatch_once r task result now later unplaced named fresh done soon =
      let m = message_of task result in
      let (given, taken, same) = dispatch-send r task result now unplaced done in
      let (again, e) = resend r m given now later named fresh taken soon in
      let q = (send r m now).0 in
      let twice : dispatch (direct later) q task result ≡ (q, none) =
        dispatch-sent q task result later again unplaced (dispatch-filled r task result now done)
          (ap (λ res. res.1) e)
        ∙ ap (λ res. (res.0, none)) e in
      subst (λ t. dispatch (direct later) t task result ≡ (t, none)) (sym same) twice
