-- ===== src/Channel/Worker/Laws.antt =====
-- How a delivery of internal/infrastructure/persistence/memory/channel/start.go ends.
use keelmesh.Prelude.{
  ℕ, zero, suc, String, Bool, true, false, ◌≡◌, refl, subst, lookup, lookup-insert_self, Option,
  none, some, Result, Error, arith, ◌⊎◌, inl, inr, if_cases, option_cases, result_cases, not, ◌||◌,
}
use keelmesh.Channel.Types.{
  Channel, DeliveryStatus, Outbound, Receipt, acknowledged, failed, cancelled,
}
use keelmesh.Channel.Repository.{Repository, record_delivery, record_delivery_as, retryable}
use keelmesh.Channel.Worker.{Round, Script, round, rounds, send_with_retry, known_id}

module _ {P : Type 0} (render : Error → String) where
  -- The delivery record says how the call ended: acknowledged without an error, or failed or
  -- cancelled with the error.
  abbrev pub IsSettled : String → Repository P → Option Error → Type 0
  IsSettled id r failure =
      (status : DeliveryStatus) × (lookup id r.deliveries ≡ some status)
      × ((failure ≡ none) × (status.state ≡ acknowledged) × (status.error ≡ "")
          ⊎ ((e : Error) × (failure ≡ some e)
              × (status.error ≡ render e)
              × ((status.state ≡ failed) ⊎ (status.state ≡ cancelled))))

  recorded_as :
      (r : Repository P) (id channel_id message_id state : String) (now : ℕ) (message : String)
      → (status : DeliveryStatus) × (lookup id
            (record_delivery_as r id channel_id message_id state now message).deliveries
          ≡ some status)
        × (status.state ≡ state)
        × (status.error ≡ message)
  unfolding record_delivery_as
  recorded_as r id channel_id message_id state now message =
      (_, lookup-insert_self id _ r.deliveries, refl, refl)

  recorded :
      (r : Repository P) (id channel_id state : String) (now : ℕ) (message : String)
      → (status : DeliveryStatus) × (lookup id
            (record_delivery r id channel_id state now message).deliveries
          ≡ some status)
        × (status.state ≡ state)
        × (status.error ≡ message)
  unfolding record_delivery
  recorded r id channel_id state now message = recorded_as r id channel_id id state now message

  acknowledged_settled :
      (r : Repository P) (id channel_id message_id : String) (now : ℕ)
      → IsSettled id (record_delivery_as r id channel_id message_id acknowledged now "") none
  acknowledged_settled r id channel_id message_id now =
      let (status, found, state, error) =
        recorded_as r id channel_id message_id acknowledged now "" in
      (status, found, inl (refl, state, error))

  failed_settled :
      (r : Repository P) (id channel_id : String) (now : ℕ) (e : Error)
      → IsSettled id (record_delivery r id channel_id failed now (render e)) (some e)
  failed_settled r id channel_id now e =
      let (status, found, state, error) = recorded r id channel_id failed now (render e) in
      (status, found, inr (e, refl, error, inl state))

  cancelled_settled :
      (r : Repository P) (id channel_id : String) (now : ℕ) (e : Error)
      → IsSettled id (record_delivery r id channel_id cancelled now (render e)) (some e)
  cancelled_settled r id channel_id now e =
      let (status, found, state, error) = recorded r id channel_id cancelled now (render e) in
      (status, found, inr (e, refl, error, inr state))

  -- What a round leaves: an ended delivery is settled, and a last round ends it.
  abbrev Settles : String → Bool → Repository P × Option (Option Error) → Type 0
  Settles id last res = elim res.1 [
    | none ↦ last ≡ false
    | some failure ↦ IsSettled id res.0 failure
  ]

  module _ (send : P → P × Result Receipt) (id channel_id : String) where
    round-Settles :
        (now : Round) (last : Bool) (r : Repository P)
        → Settles id last (round render send id channel_id now last r)
    unfolding round
    round-Settles now last r =
        let r' = record r { platform = (send r.platform).0 } in
        option_cases (Settles id last) now.limiter
          (λ _.
            result_cases (Settles id last) (send r.platform).1
              (λ e _.
                if_cases (Settles id last) (not (retryable e) || last)
                  (λ _. failed_settled r' id channel_id now.time e)
                  λ on.
                    option_cases (Settles id last) now.backoff (λ _. ground arith)
                      λ stop _. cancelled_settled r' id channel_id now.time stop)
              λ receipt _. acknowledged_settled r' id channel_id (known_id id receipt) now.time)
          λ e _. cancelled_settled r id channel_id now.time e

    abbrev Settled : Repository P × Option Error → Type 0
    Settled res = IsSettled id res.0 res.1

    ended :
        (res : Repository P × Option (Option Error)) (last : Bool) (failure : Option Error)
        → Settles id last res
        → res.1 ≡ some failure
        → IsSettled id res.0 failure
    ended (r', none) last failure h e = absurd (ground arith)
    ended (r', some failure') last failure h e =
        let same : failure' ≡ failure = ground arith in subst (IsSettled id r') same h

    last_ends :
        (res : Repository P × Option (Option Error)) → Settles id true res → res.1 ≡ none → ⊥
    last_ends (r', none) h e = ground arith
    last_ends (r', some failure) h e = ground arith

    rounds-IsSettled :
        (script : Script) (left attempt : ℕ) (r : Repository P)
        → Settled (rounds render send id channel_id script left attempt r)
    unfolding rounds
    rounds-IsSettled script zero attempt r =
        let res = round render send id channel_id (script attempt) true r in
        let h = round-Settles (script attempt) true r in
        option_cases Settled res.1 (λ e. absurd (last_ends res h e))
          λ failure e. ended res true failure h e
    rounds-IsSettled script (suc left) attempt r =
        let res = round render send id channel_id (script attempt) false r in
        let h = round-Settles (script attempt) false r in
        option_cases Settled res.1 (λ _. rounds-IsSettled script left (suc attempt) res.0)
          λ failure e. ended res false failure h e

  -- `sendWithRetry` never leaves a message on its way: whatever the limiter, the platform and the
  -- backoff answer, the delivery record of the message is acknowledged with no error where the call
  -- returns none, and failed or cancelled with the text of the error that the call returns.
  pub send_with_retry-IsSettled :
      (c : Channel P) (m : Outbound) (script : Script) (now : ℕ) (r : Repository P)
      → let (r', failure) = send_with_retry render c m script now r in IsSettled m.id r' failure
  unfolding send_with_retry
  send_with_retry-IsSettled c m script now r =
      rounds-IsSettled (λ p. c.send p m) m.id m.channel_id script _ 0 _
