-- ===== src/Delivery/Laws.antt =====
-- From the outbox of internal/application/gate/outbox_dispatcher.go through the router of
-- internal/infrastructure/messaging/delivery/router.go to the client.
use keelmesh.Prelude.{
  ℕ, String, ◌≡◌, refl, ap, ◌∙◌, Option, none, some, lookup, lookup-insert, ok, Error, trim, arith,
  eq_iff, wrap, [], ◌∷◌, lookup-insert_self, Result-cases, Option-cases, inl, inr,
}
use keelmesh.Gate.Types.{Task, ExecutionResult}
use keelmesh.Delivery.Outbox.{
  Json, Message, OutboxStore, DeliveryClient, DeliveryEnvelope, message, enqueue_tx, enqueue_final,
  enqueue_progress, publish_delivery, final_destination, progress_destination, final_envelope,
  progress_envelope, final_key, progress_key,
}
use keelmesh.Delivery.Router.{Publisher, Router, register, publish}

-- `Unmarshal` gives back what `Marshal` was given.
abbrev pub IsFaithful : Json → Type 0
IsFaithful json =
    (e : DeliveryEnvelope) (text : String) → json.marshal e ≡ ok text → json.unmarshal text ≡ ok e

-- The publisher's answer, as the router passes it on.
abbrev pub reported : {C : Type 0} → String → C × Option Error → C × Option Error
reported destination (c, none) = (c, none)
reported destination (c, some e) = (c, some (wrap "deliver %q: %w" (destination ∷ []) e))

module _ {C : Type 0} (r : Router C) where
  registered :
      (destination : String) (p : Publisher C)
      → trim destination ≡ destination
      → (register r destination (some p)).1 ≡ none
      → lookup destination (register r destination (some p)).0 ≡ some p
  unfolding register
  registered destination p same taken = ground (arith, same, lookup-insert_self destination p r)

  publish-reported :
      (c : C) (m : Message) (p : Publisher C)
      → lookup m.destination r ≡ some p
      → publish r c m ≡ reported m.destination (p c m)
  unfolding publish
  publish-reported c m p found = elim (Option-cases (p c m).1) [
    | inl e ↦ ground (arith, found, e)
    | inr (failure, e) ↦ ground (arith, found, e)
  ]

  -- A destination keeps its publisher: no registration replaces it, whatever its arguments.
  pub register-keeps :
      (destination text : String) (p : Publisher C) (q : Option (Publisher C))
      → lookup destination r ≡ some p
      → lookup destination (register r text q).0 ≡ some p
  unfolding register
  register-keeps destination text p none found = found
  register-keeps destination text p (some q) found = ground (
    arith,
    found,
    lookup-insert (trim text) destination q r,
    eq_iff (trim text) destination,
    ap (λ k. lookup k r),
  )

module _ {C W : Type 0} (json : Json) (client : DeliveryClient C) (store : OutboxStore W) where
  -- What was put into the outbox is one message, and the router in which the publisher was
  -- registered for the destination answers that message as the client does.
  abbrev pub IsDelivered :
      Router C → W → C → ℕ → String → W × Option Error → C × Option Error → Type 0
  IsDelivered r w c now destination put answer =
      (m : Message) × (put ≡ store.enqueue w m now)
      × (publish (register r destination (some (publish_delivery json client))).0 c m
          ≡ reported destination answer)

module _ {C W : Type 0} (json : Json) (client : DeliveryClient C) (faithful : IsFaithful json)
    (store : OutboxStore W) where
  enqueue_tx-message :
      (w : W) (destination key : String) (envelope : DeliveryEnvelope) (now : ℕ)
      → (enqueue_tx json store w destination key envelope now).1 ≡ none
      → (payload : String) × (json.unmarshal payload ≡ ok envelope)
        × (enqueue_tx json store w destination key envelope now
            ≡ store.enqueue w (message destination key payload now) now)
  unfolding enqueue_tx
  enqueue_tx-message w destination key envelope now taken =
      elim (Result-cases (json.marshal envelope)) [
        | inl (e, bad) ↦ absurd (ground (arith, bad))
        | inr (payload, good) ↦ (payload, faithful envelope payload good, ground (arith, good))
      ]

  published :
      (r : Router C) (c : C) (m : Message) (destination : String)
      → m.destination ≡ destination
      → trim destination ≡ destination
      → (register r destination (some (publish_delivery json client))).1 ≡ none
      → publish (register r destination (some (publish_delivery json client))).0 c m
        ≡ reported m.destination (publish_delivery json client c m)
  published r c m destination to same taken =
      let p = publish_delivery json client in
      publish-reported (register r destination (some p)).0 c m p (
        ap (λ d. lookup d (register r destination (some p)).0) to
        ∙ registered r destination p same taken)

  final_published :
      (c : C) (key payload : String) (task : Task) (result : ExecutionResult) (now : ℕ)
      → json.unmarshal payload ≡ ok (final_envelope task result)
      → publish_delivery json client c (message final_destination key payload now)
        ≡ client.dispatch c task result
  unfolding publish_delivery message
  final_published c key payload task result now e = ground (arith, e)

  progress_published :
      (c : C) (key payload : String) (task : Task) (state content : String) (now : ℕ)
      → json.unmarshal payload ≡ ok (progress_envelope task state content)
      → publish_delivery json client c (message progress_destination key payload now)
        ≡ client.dispatch_progress c task state content
  unfolding publish_delivery message
  progress_published c key payload task state content now e = ground (arith, e)

  -- Where JSON decodes what it has encoded: if the gate's final answer is taken into a transaction,
  -- then it went to the outbox as one message, and a router in which the publisher was registered for
  -- final answers gives that message's task and result, unchanged, to the client, and passes the
  -- client's answer on.
  pub enqueue_final-IsDelivered :
      (r : Router C) (w : W) (c : C) (task : Task) (result : ExecutionResult) (now : ℕ)
      → (register r final_destination (some (publish_delivery json client))).1 ≡ none
      → (enqueue_final json store now task result w).1 ≡ none
      → IsDelivered json client store r w c now final_destination
          (enqueue_final json store now task result w)
          (client.dispatch c task result)
  unfolding enqueue_final trim message
  enqueue_final-IsDelivered r w c task result now taken queued =
      let key = final_key task in
      let (payload, decoded, put) =
        enqueue_tx-message w final_destination key (final_envelope task result) now queued in
      let m = message final_destination key payload now in
      (
        m,
        put,
        published r c m final_destination refl refl taken
            ∙ ap (reported final_destination)
                (final_published c key payload task result now decoded),
      )

  -- Where JSON decodes what it has encoded: if a progress note is taken into a transaction, then it
  -- went to the outbox as one message, and a router in which the publisher was registered for
  -- progress gives that message's task, state and content, unchanged, to the client, and passes the
  -- client's answer on.
  pub enqueue_progress-IsDelivered :
      (r : Router C) (w : W) (c : C) (task : Task) (state content : String) (now : ℕ)
      → (register r progress_destination (some (publish_delivery json client))).1 ≡ none
      → (enqueue_progress json store now task state content w).1 ≡ none
      → IsDelivered json client store r w c now progress_destination
          (enqueue_progress json store now task state content w)
          (client.dispatch_progress c task state content)
  unfolding enqueue_progress trim message
  enqueue_progress-IsDelivered r w c task state content now taken queued =
      let key = progress_key task state in
      let (payload, decoded, put) =
        enqueue_tx-message w progress_destination key (progress_envelope task state content) now
          queued in
      let m = message progress_destination key payload now in
      (
        m,
        put,
        published r c m progress_destination refl refl taken
            ∙ ap (reported progress_destination)
                (progress_published c key payload task state content now decoded),
      )
