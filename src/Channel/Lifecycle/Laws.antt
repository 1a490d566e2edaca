-- ===== src/Channel/Lifecycle/Laws.antt =====
-- The life cycle of the runtime of internal/infrastructure/persistence/memory/channel, and what may be
-- sent in it.
use keelmesh.Prelude.{
  ℕ, String, true, false, not, Map, ◌≡◌, ◌⊎◌, inl, inr, refl, ap, ◌∙◌, lookup, lookup-insert,
  eq_iff, Option, none, some, List, [], ◌∷◌, length, ltb, blank, ◌||◌, ◌==◌, ok, Error, arith,
  if_cases, option_cases, Bool-cases, is_ok,
}
use keelmesh.Channel.Types.{Channel, Outbound}
use keelmesh.Channel.Repository.{Repository, Worker, get}
use keelmesh.Channel.Send.{send, enqueue, send_new, send_authorized, authorize, with_id}
use keelmesh.Channel.Lifecycle.{
  already_running, new_worker, with_worker, all_channels, start_channels, start,
}

module _ {P : Type 0} where
  -- A worker that waits for messages.
  abbrev HasRoom : String → Repository P → Type 0
  HasRoom id r =
      (worker : Worker) × (lookup id r.workers ≡ some worker)
      × (ltb (length worker.text) worker.size ≡ true)

  -- Every worker that has room still has room, or is a new one.
  insert-HasRoom :
      (r : Repository P) (c : Channel P) (id : String) (p : P)
      → HasRoom id r ⊎ (c.definition.id ≡ id)
      → HasRoom id (with_worker r c p)
  insert-HasRoom r c id p given = elim (Bool-cases (c.definition.id == id)) [
    | inl hit ↦ (
      new_worker c.definition,
      ground (arith, lookup-insert c.definition.id id (new_worker c.definition) r.workers),
      ground arith,
    )
    | inr miss ↦ elim given [
      | inl (worker, found, room) ↦ (
        worker,
        ground (arith, lookup-insert c.definition.id id (new_worker c.definition) r.workers),
        room,
      )
      | inr same ↦ absurd (ground (arith, miss, same, eq_iff c.definition.id id))
    ]
  ]

  -- An enabled channel of a list.
  IsThere : String → List (Channel P) → Type 0
  IsThere id [] = ⊥
  IsThere id (c ∷ rest) = (c.definition.id ≡ id) × (c.definition.enabled ≡ true) ⊎ IsThere id rest

  registered-IsThere :
      (id : String) (c : Channel P) (registry : Map (Channel P))
      → lookup id registry ≡ some c
      → c.definition.id ≡ id
      → c.definition.enabled ≡ true
      → IsThere id (all_channels registry)
  unfolding IsThere all_channels lookup
  registered-IsThere id c [] found same on = absurd (ground (arith, found))
  registered-IsThere id c ((key, d) ∷ rest) found same on = elim (Bool-cases (key == id)) [
    | inl hit ↦
        let here : d ≡ c = ground (arith, found, hit) in
        inl (ap (λ x. x.definition.id) here ∙ same, ap (λ x. x.definition.enabled) here ∙ on)
    | inr miss ↦ inr (registered-IsThere id c rest (ground (arith, found, miss)) same on)
  ]

  start_channels-keeps :
      (r : Repository P) (started cs : List (Channel P)) (id : String)
      → HasRoom id r
      → HasRoom id (start_channels r started cs).0
  unfolding start_channels
  start_channels-keeps r started [] id room = room
  start_channels-keeps r started (c ∷ cs) id room =
      let Keeps = λ (res : Repository P × Option Error). HasRoom id res.0 in
      if_cases Keeps (not c.definition.enabled) (λ _. start_channels-keeps r started cs id room)
        λ _.
          option_cases Keeps (c.start r.platform).1
            (λ _.
              start_channels-keeps (with_worker r c (c.start r.platform).0) (c ∷ started) cs id
                (insert-HasRoom r c id (c.start r.platform).0 (inl room)))
            λ _ _. room

  start_channels-HasRoom :
      (r : Repository P) (started cs : List (Channel P)) (id : String)
      → IsThere id cs
      → (start_channels r started cs).1 ≡ none
      → HasRoom id (start_channels r started cs).0
  unfolding start_channels IsThere
  start_channels-HasRoom r started [] id there = absurd there
  start_channels-HasRoom r started (c ∷ cs) id there =
      let Ready = λ (res : Repository P × Option Error). res.1 ≡ none → HasRoom id res.0 in
      if_cases Ready (not c.definition.enabled)
        (λ off. elim there [
          | inl (_, on) ↦ absurd (ground (arith, off, on))
          | inr later ↦ start_channels-HasRoom r started cs id later
        ])
        λ _.
          option_cases Ready (c.start r.platform).1
            (λ _. elim there [
              | inl (same, _) ↦ λ _.
                  start_channels-keeps (with_worker r c (c.start r.platform).0) (c ∷ started) cs id
                    (insert-HasRoom r c id (c.start r.platform).0 (inr same))
              | inr later ↦
                  start_channels-HasRoom (with_worker r c (c.start r.platform).0) (c ∷ started) cs
                    id later
            ])
            λ e _ fine. absurd (ground (arith, fine))

  -- What starting leaves alone.
  start_channels-rest :
      (r : Repository P) (started cs : List (Channel P))
      → let r' = (start_channels r started cs).0 in
        (r'.registry ≡ r.registry) × (r'.authorizer ≡ r.authorizer) × (r'.has_cancel ≡ r.has_cancel)
  unfolding start_channels
  start_channels-rest r started [] = (refl, refl, refl)
  start_channels-rest r started (c ∷ cs) =
      let Rest = λ (res : Repository P × Option Error).
        (res.0.registry ≡ r.registry)
        × (res.0.authorizer ≡ r.authorizer)
        × (res.0.has_cancel ≡ r.has_cancel) in
      if_cases Rest (not c.definition.enabled) (λ _. start_channels-rest r started cs)
        λ _.
          option_cases Rest (c.start r.platform).1
            (λ _. start_channels-rest (with_worker r c (c.start r.platform).0) (c ∷ started) cs)
            λ _ _. (refl, refl, refl)

  send_ready :
      (r : Repository P) (m : Outbound) (now : ℕ) (c : Channel P)
      → (blank m.channel_id || blank m.target_id || blank m.content) ≡ false
      → blank m.idempotency_key ≡ true
      → get r m.channel_id ≡ ok c
      → c.definition.enabled ≡ true
      → authorize r m ≡ none
      → HasRoom m.channel_id r
      → is_ok (send r m now).1 ≡ true
  unfolding send send_authorized send_new enqueue with_id
  send_ready r m now c complete keyless found on free (worker, there, room) =
      ground (arith, complete, keyless, found, on, free, there, room)

  get_found :
      (r : Repository P) (id : String) (c : Channel P)
      → lookup id r.registry ≡ some c
      → get r id ≡ ok c
  unfolding get
  get_found r id c found = ground (arith, found)

  unauthorized : (r : Repository P) (m : Outbound) → r.authorizer ≡ none → authorize r m ≡ none
  unfolding authorize
  unauthorized r m free = ground (arith, free)

  -- After a start of the runtime that reports no error, a channel that is registered under its id and
  -- enabled takes messages: where there is no authorizer, a message to it with a target and a content and
  -- no idempotency key is taken by the first `Send`.
  pub start-send :
      (r : Repository P) (m : Outbound) (now : ℕ) (c : Channel P)
      → (start r).1 ≡ none
      → r.authorizer ≡ none
      → lookup m.channel_id r.registry ≡ some c
      → c.definition.id ≡ m.channel_id
      → c.definition.enabled ≡ true
      → (blank m.channel_id || blank m.target_id || blank m.content) ≡ false
      → blank m.idempotency_key ≡ true
      → is_ok (send (start r).0 m now).1 ≡ true
  unfolding start
  start-send r m now c fine free found same on complete keyless =
      let begun = record r { has_cancel = true } in
      let cs = all_channels r.registry in
      let Sends =
        λ (res : Repository P × Option Error). res.1 ≡ none → is_ok (send res.0 m now).1 ≡ true in
      if_cases Sends r.has_cancel (λ _ bad. absurd (ground (arith, bad)))
        (λ _ started.
          let (registry, authorizer, _) = start_channels-rest begun [] cs in
          send_ready (start_channels begun [] cs).0 m now c complete keyless
            (get_found _ m.channel_id c (ap (lookup m.channel_id) registry ∙ found)) on
            (unauthorized _ m (authorizer ∙ free))
            (start_channels-HasRoom begun [] cs m.channel_id
              (registered-IsThere m.channel_id c r.registry found same on) started))
        fine

  running_refused : (r : Repository P) → r.has_cancel ≡ true → start r ≡ (r, some already_running)
  unfolding start
  running_refused r on = ground (arith, on)

  start-running : (r : Repository P) → (start r).0.has_cancel ≡ true
  unfolding start
  start-running r =
      let Running = λ (res : Repository P × Option Error). res.0.has_cancel ≡ true in
      if_cases Running r.has_cancel (λ on. on)
        λ _. (start_channels-rest (record r { has_cancel = true }) [] (all_channels r.registry)).2

  -- A runtime is started once: after a start, whatever it reported, a second one is refused and changes
  -- nothing.
  pub start_once : (r : Repository P) → start (start r).0 ≡ ((start r).0, some already_running)
  start_once r = running_refused (start r).0 (start-running r)
