-- ===== src/Channel/Send/Laws.antt =====
-- Idempotency and the way back of `Send` (internal/infrastructure/persistence/memory/channel/send.go).
use keelmesh.Prelude.{
  ℕ, ◌-◌, ◌≤◌, String, true, false, ◌≡◌, refl, sym, ap, ◌∙◌, lookup, delete, lookup-insert_self,
  trim, blank, none, some, length, leb, ltb, ◌+◌, ok, arith, Bool-cases, Option-cases, inl, inr,
  subst,
}
use keelmesh.Channel.Types.{Outbound, Receipt, DeliveryStatus, queued}
use keelmesh.Channel.Repository.{Repository, half_hour, record_delivery, record_delivery_as}
use keelmesh.Channel.Send.{
  idempotency_id, receipt, with_id, previous, replay, remember, enqueue, send_new, send_authorized,
}

-- A receipt and a repository agree on a message that waits in a queue.
abbrev IsQueued : {P : Type 0} → Repository P → String → Type 0
IsQueued r id =
    (status : DeliveryStatus) × (lookup id r.deliveries ≡ some status) × (status.state ≡ queued)

module _ {P : Type 0} (r : Repository P) (m : Outbound) (now : ℕ) where
  record_delivery-IsQueued : IsQueued (record_delivery r m.id m.channel_id queued now "") m.id
  unfolding record_delivery record_delivery_as
  record_delivery-IsQueued = (_, lookup-insert_self m.id _ r.deliveries, refl)

  -- What a message that is taken leaves behind.
  enqueue_ok :
      (given : Receipt)
      → (enqueue r m now).1 ≡ ok given
      → (given.message_id ≡ m.id)
        × ((enqueue r m now).0.idempotency ≡ r.idempotency)
        × ((enqueue r m now).0.deliveries
            ≡ (record_delivery r m.id m.channel_id queued now "").deliveries)
  unfolding enqueue record_delivery record_delivery_as
  enqueue_ok given e = elim (Option-cases (lookup m.channel_id r.workers)) [
    | inl absent ↦ absurd (ground (arith, absent))
    | inr (worker, found) ↦ elim (Bool-cases (ltb (length worker.text) worker.size)) [
      | inr full ↦ absurd (ground (arith, found, full))
      | inl fits ↦
          (ground (arith, found, fits), ground (arith, found, fits), ground (arith, found, fits))
    ]
  ]

  enqueue-IsQueued :
      (given : Receipt) → (enqueue r m now).1 ≡ ok given → IsQueued (enqueue r m now).0 m.id
  enqueue-IsQueued given e =
      let (status, found, state) = record_delivery-IsQueued in
      (status, ap (lookup m.id) (enqueue_ok given e).2 ∙ found, state)

abbrev key_of : Outbound → String
key_of m = idempotency_id m.channel_id (trim m.idempotency_key)

module _ {P : Type 0} (r : Repository P) where
  -- A second message with the key of one that waits is not sent.
  resend :
      (m : Outbound) (id : String) (first now : ℕ)
      → blank m.idempotency_key ≡ false
      → now ≤ first + half_hour
      → lookup (key_of m) r.idempotency ≡ some (record { message_id = id; created_at = first })
      → IsQueued r id
      → (again : Receipt) × (send_authorized r m now ≡ (r, ok again))
        × (again.message_id ≡ id)
        × (again.state ≡ queued)
  unfolding send_authorized previous replay
  resend m id first now keyed soon known (status, found, state) =
      let recent : leb (now - first) half_hour ≡ true = ground (arith, soon) in
      (
        receipt id status.accepted_at status.state,
        ground (arith, keyed, recent, known, found),
        refl,
        state,
      )

module _ {P : Type 0} (r : Repository P) where
  -- What `Send` does where no earlier message has the key.
  send_fresh :
      (m : Outbound) (now : ℕ)
      → blank m.idempotency_key ≡ false
      → previous r (key_of m) now ≡ none
      → send_authorized r m now
        ≡ enqueue (remember r (key_of m) (with_id m now).id now) (with_id m now) now
  unfolding send_authorized send_new with_id
  send_fresh m now keyed fresh = ground (arith, keyed, fresh)

  -- Every later message with the key gets the id of the first.
  abbrev Replays : (m' : Outbound) (given : Receipt) (later : ℕ) → Repository P → Type 0
  Replays m' given later r' =
      (again : Receipt) × (send_authorized r' m' later ≡ (r', ok again))
      × (again.message_id ≡ given.message_id)

  enqueued-Replays :
      (m m' : Outbound) (given : Receipt) (now later : ℕ)
      → let res = enqueue (remember r (key_of m') m.id now) m now in
        res.1 ≡ ok given
        → blank m'.idempotency_key ≡ false
        → later ≤ now + half_hour
        → Replays m' given later res.0
  enqueued-Replays m m' given now later taken keyed soon =
      let r0 = remember r (key_of m') m.id now in
      let (same, kept, _) = enqueue_ok r0 m now given taken in
      let known =
        ap (lookup (key_of m')) kept
        ∙ lookup-insert_self (key_of m') (record { message_id = m.id; created_at = now })
            (delete (key_of m') r.idempotency) in
      let (again, e, id, _) =
        resend (enqueue r0 m now).0 m' m.id now later keyed soon known
          (enqueue-IsQueued r0 m now given taken) in
      (again, e, id ∙ sym same)

  -- What `Send` does after its checks takes a message with an idempotency key that no message of the
  -- last half hour has at most once: where it takes it, then for half an hour, as long as nothing else
  -- happens in between, a message to the channel with that key that passes the checks too gets a
  -- receipt with the first one's id, and changes nothing.
  pub send_authorized-once :
      (m m' : Outbound) (given : Receipt) (now later : ℕ)
      → blank m.idempotency_key ≡ false
      → previous r (key_of m) now ≡ none
      → (send_authorized r m now).1 ≡ ok given
      → blank m'.idempotency_key ≡ false
      → key_of m' ≡ key_of m
      → later ≤ now + half_hour
      → let r' = (send_authorized r m now).0 in
        (again : Receipt) × (send_authorized r' m' later ≡ (r', ok again))
        × (again.message_id ≡ given.message_id)
  send_authorized-once m m' given now later keyed fresh taken keyed' same soon =
      let sent = send_fresh m now keyed fresh in
      let sent' =
        sent
        ∙ ap (λ k. enqueue (remember r k (with_id m now).id now) (with_id m now) now) (sym same) in
      subst (λ res. Replays m' given later res.0) (sym sent')
        (enqueued-Replays (with_id m now) m' given now later (ap (λ res. res.1) (sym sent') ∙ taken)
          keyed' soon)
