-- ===== src/Agent/Postgres/Laws.antt =====
-- The event store of internal/application/agent/events.go on a database against the one in memory.
use keelmesh.Prelude.{
  ℕ, ◌+◌, ◌<◌, String, ◌≡◌, refl, sym, ap, ◌∙◌, subst, lookup, lookup-insert, eq_iff, Option, none,
  List, [], ◌∷◌, ◌++◌, length, ◌==◌, if◌then◌else◌, Bool-cases, inl, inr, option_cases,
  result_cases, ok, Error, arith,
}
use keelmesh.Agent.Events
use keelmesh.Agent.Events.{TaskEvent, EventStore, events_of, number}
use keelmesh.Agent.Postgres.{EventCodec, EventSql, insert_numbered, append}

-- The contents as the payloads of a task in the order of their sequence numbers, with the greatest of
-- these, and what the statements do when they succeed.
pub record EventSqlLaws (W : Type 0) (sql : EventSql W) : Type 0 where
  pub payloads : W → String → List String
  pub last : W → String → ℕ
  pub next_sequence_ok :
      (w : W) (id : String) (n : ℕ) → sql.next_sequence w id ≡ ok n → n ≡ last w id + 1
  pub insert_last :
      (w : W) (id : String) (n : ℕ) (event_id state payload : String) (j : String)
      → (sql.insert_event w id n event_id state payload).1 ≡ none
      → last w id < n
      → last (sql.insert_event w id n event_id state payload).0 j
        ≡ (if id == j then n else last w j)
  pub insert_payloads :
      (w : W) (id : String) (n : ℕ) (event_id state payload : String) (j : String)
      → (sql.insert_event w id n event_id state payload).1 ≡ none
      → last w id < n
      → payloads (sql.insert_event w id n event_id state payload).0 j
        ≡ (if id == j then payloads w j ++ payload ∷ [] else payloads w j)
  pub commit_ok : (old new : W) → (sql.commit old new).1 ≡ none → (sql.commit old new).0 ≡ new

-- The payloads are the encodings of the events.
unfoldable pub Encodes : EventCodec → List String → List TaskEvent → Type 0
Encodes codec [] [] = Unit {0}
Encodes codec (payload ∷ rest) (e ∷ events) =
    (codec.marshal e ≡ ok payload) × Encodes codec rest events
Encodes codec [] (e ∷ events) = ⊥
Encodes codec (payload ∷ rest) [] = ⊥

-- The database shows what the memory store holds.
pub record Shows {W : Type 0} {sql : EventSql W} (codec : EventCodec) (laws : EventSqlLaws W sql)
    (w : W) (store : EventStore) : Type 0 where
  pub counted : (id : String) → laws.last w id ≡ length (events_of store id)
  pub encoded : (id : String) → Encodes codec (laws.payloads w id) (events_of store id)

Encodes-append :
    (codec : EventCodec) (ts : List String) (es : List TaskEvent) (t : String) (e : TaskEvent)
    → Encodes codec ts es
    → codec.marshal e ≡ ok t
    → Encodes codec (ts ++ t ∷ []) (es ++ e ∷ [])
unfolding Encodes
Encodes-append codec [] [] t e h m = (m, tt)
Encodes-append codec (u ∷ ts) (d ∷ es) t e h m = (h.0, Encodes-append codec ts es t e h.1 m)
Encodes-append codec [] (d ∷ es) t e h m = absurd h
Encodes-append codec (u ∷ ts) [] t e h m = absurd h

length-snoc : (es : List TaskEvent) (e : TaskEvent) → length (es ++ e ∷ []) ≡ length es + 1
length-snoc [] e = refl
length-snoc (d ∷ es) e = ground (arith, length-snoc es e)

events_of-append :
    (store : EventStore) (e : TaskEvent) (now : ℕ) (j : String)
    → let items = events_of store e.task_id in
      events_of (Events.append store e now).0 j ≡ (
        if e.task_id == j
        then events_of store j ++ number e (length items + 1) now ∷ []
        else events_of store j)
unfolding Events.append events_of number
events_of-append store e now j =
    let items = events_of store e.task_id in
    let e' = number e (length items + 1) now in
    ground (
      arith,
      lookup-insert e.task_id j (items ++ e' ∷ []) store,
      eq_iff e.task_id j,
      λ (k : String). lookup k store,
    )

module _ {W : Type 0} {sql : EventSql W} (codec : EventCodec) (laws : EventSqlLaws W sql) (w : W)
    (store : EventStore) (shows : Shows codec laws w store) (e : TaskEvent) (now : ℕ) where
  -- The event as the memory store numbers it.
  abbrev numbered : TaskEvent
  numbered = number e (length (events_of store e.task_id) + 1) now

  module _ (payload : String) (encoded : codec.marshal numbered ≡ ok payload)
      (fine : (sql.insert_event w e.task_id numbered.sequence numbered.event_id numbered.state
          payload).1
        ≡ none) where
    abbrev tx : W
    tx = (sql.insert_event w e.task_id numbered.sequence numbered.event_id numbered.state payload).0

    above : laws.last w e.task_id < numbered.sequence
    unfolding number
    above = ground (arith, shows.counted e.task_id)

    tx-Shows : Shows codec laws tx (Events.append store e now).0
    unfolding number
    tx-Shows = record {
      counted = λ j. elim (Bool-cases (e.task_id == j)) [
        | inl hit ↦
            let left =
              laws.insert_last w e.task_id numbered.sequence numbered.event_id numbered.state
                payload j fine above
              ∙ rw hit refl in
            let right =
              ap length (events_of-append store e now j ∙ rw hit refl)
              ∙ length-snoc (events_of store j) numbered in
            left ∙ ap (λ k. length (events_of store k) + 1) ((eq_iff e.task_id j).0 hit) ∙ sym right
        | inr miss ↦
            let left =
              laws.insert_last w e.task_id numbered.sequence numbered.event_id numbered.state
                payload j fine above
              ∙ rw miss refl in
            let right = ap length (events_of-append store e now j ∙ rw miss refl) in
            left ∙ shows.counted j ∙ sym right
      ];
      encoded = λ j. elim (Bool-cases (e.task_id == j)) [
        | inl hit ↦
            let left =
              laws.insert_payloads w e.task_id numbered.sequence numbered.event_id numbered.state
                payload j fine above
              ∙ rw hit refl in
            let right = events_of-append store e now j ∙ rw hit refl in
            subst (λ ts. Encodes codec ts (events_of (Events.append store e now).0 j)) (sym left)
              (subst (Encodes codec (laws.payloads w j ++ payload ∷ [])) (sym right)
                (Encodes-append codec _ _ payload numbered (shows.encoded j) encoded))
        | inr miss ↦
            let left =
              laws.insert_payloads w e.task_id numbered.sequence numbered.event_id numbered.state
                payload j fine above
              ∙ rw miss refl in
            let right = events_of-append store e now j ∙ rw miss refl in
            subst (λ ts. Encodes codec ts (events_of (Events.append store e now).0 j)) (sym left)
              (subst (Encodes codec (laws.payloads w j)) (sym right) (shows.encoded j))
      ];
    }

  insert_numbered-Shows :
      (insert_numbered codec sql w numbered).1 ≡ none
      → Shows codec laws (insert_numbered codec sql w numbered).0 (Events.append store e now).0
  unfolding insert_numbered number
  insert_numbered-Shows =
      let Shown = λ (res : W × Option Error).
        res.1 ≡ none → Shows codec laws res.0 (Events.append store e now).0 in
      result_cases Shown (codec.marshal numbered) (λ _ _ h. absurd (ground (arith, h)))
        λ payload encoded.
          let inserted =
            sql.insert_event w e.task_id numbered.sequence numbered.event_id numbered.state
              payload in
          option_cases Shown inserted.1
            (λ fine.
              option_cases Shown (sql.commit w inserted.0).1
                (λ done _.
                  subst (λ v. Shows codec laws v (Events.append store e now).0)
                    (sym (laws.commit_ok w inserted.0 done)) (tx-Shows payload encoded fine))
                λ _ _ h. absurd (ground (arith, h)))
            λ _ _ h. absurd (ground (arith, h))

  append-numbered : (Events.append store e now).1 ≡ numbered
  unfolding Events.append
  append-numbered = refl

  -- The answers agree: the event as it was numbered, and what is stored then.
  abbrev pub Agree : W × TaskEvent × Option Error → EventStore × TaskEvent → Type 0
  Agree res res' = (res.1 ≡ res'.1) × Shows codec laws res.0 res'.0

  -- The database implements the memory store: where it shows what the memory store holds and the
  -- statements have their documented effect, an `Append` that reports no error numbers and dates the
  -- event as the memory store does, and afterwards the database shows what the memory store holds then.
  pub append-Agrees :
      (append codec sql w e now).2 ≡ none
      → Agree (append codec sql w e now) (Events.append store e now)
  unfolding append
  append-Agrees =
      let Agrees = λ (res : W × TaskEvent × Option Error).
        res.2 ≡ none → Agree res (Events.append store e now) in
      option_cases Agrees (sql.begin w)
        (λ _.
          option_cases Agrees (sql.lock w e.task_id)
            (λ _.
              result_cases Agrees (sql.next_sequence w e.task_id)
                (λ _ _ h. absurd (ground (arith, h)))
                λ n found.
                  let same : n ≡ length (events_of store e.task_id) + 1 =
                    laws.next_sequence_ok w e.task_id n found
                    ∙ ap (λ k. k + 1) (shows.counted e.task_id) in
                  subst
                    (λ k.
                      let (w', failure) = insert_numbered codec sql w (number e k now) in
                      Agrees (w', number e k now, failure))
                    (sym same) λ fine. (sym append-numbered, insert_numbered-Shows fine))
            λ _ _ h. absurd (ground (arith, h)))
        λ _ _ h. absurd (ground (arith, h))
