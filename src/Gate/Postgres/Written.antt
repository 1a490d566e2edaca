-- ===== src/Gate/Postgres/Written.antt =====
-- internal/application/gate/postgres_repository.go: what the writes of an audited transition do to a
-- database that shows a memory.
use keelmesh.Prelude.{
  ℕ, String, true, ◌≡◌, inl, inr, refl, sym, ap, ◌∙◌, subst, Option, none, some, ◌==◌,
  if◌then◌else◌, Bool-cases, List, [], ◌∷◌, ◌++◌, map, lookup, insert, lookup-insert, eq_iff,
  is_some, ok, Error, arith,
}
use mathlib.Core.List.{map-append}
use keelmesh.Gate.Types.{TaskRecord, AuditEvent}
use keelmesh.Gate.Memory.{Outside, Memory, append, events_of, stamp}
use keelmesh.Gate.Service.{plain_event}
use keelmesh.Gate.Local.{stored, logged}
use keelmesh.Gate.Postgres.{Row, Codec, Sql, row_of, dated, wrapped, and_then}
use keelmesh.Gate.Postgres.Laws.{SqlLaws, Holds, Shows, state_column, row_of-HasColumns}

module _ {W : Type 0} where
  pub wrapped_ok :
      (text : String) (args : List String) (res : W × Option Error) (tx : W)
      → wrapped text args res ≡ (tx, none)
      → (res.1 ≡ none) × (res.0 ≡ tx)
  wrapped_ok text args (w, none) tx e = (refl, ap (λ r. r.0) e)
  wrapped_ok text args (w, some failure) tx e = absurd (ground (arith, ap (λ r. r.1) e))

  pub wrapped_done :
      (text : String) (args : List String) (res : W × Option Error) (tx : W)
      → wrapped text args res ≡ (tx, none)
      → res ≡ (tx, none)
  wrapped_done text args (w, none) tx e = e
  wrapped_done text args (w, some failure) tx e = absurd (ground (arith, ap (λ r. r.1) e))

  pub and_then_ok :
      (res : W × Option Error) (next : W → W × Option Error) (tx : W)
      → and_then res next ≡ (tx, none)
      → (mid : W) × (res ≡ (mid, none)) × (next mid ≡ (tx, none))
  and_then_ok (w, none) next tx e = (w, refl, e)
  and_then_ok (w, some failure) next tx e = absurd (ground (arith, ap (λ r. r.1) e))

abbrev pub state_of? : Option TaskRecord → Option String
state_of? none = none
state_of? (some task) = some task.state

pub Holds-state :
    (codec : Codec) (r : Option Row) (t : Option TaskRecord)
    → Holds codec r t
    → state_column r ≡ state_of? t
Holds-state codec none none h = refl
Holds-state codec (some row) (some task) h = ap some h.2.state_column
Holds-state codec none (some task) h = absurd h
Holds-state codec (some row) none h = absurd h

Holds-some :
    (codec : Codec) (r : Option Row) (t : TaskRecord) → Holds codec r (some t) → is_some r ≡ true
Holds-some codec (some row) t h = refl
Holds-some codec none t h = absurd h

abbrev plain : List AuditEvent → List AuditEvent
plain = map plain_event

module _ {W : Type 0} {sql : Sql W} (codec : Codec) (laws : SqlLaws W sql) (uuid : String) (now : ℕ)
    (o : Outside) (w : W) (m : Memory) (shows : Shows codec laws w m) (id : String)
    (task : TaskRecord) (event : AuditEvent) where
  module _ (text : String) (encoded : codec.marshal task.metadata ≡ ok text) (old : TaskRecord)
      (found : lookup id m.tasks ≡ some old) where
    abbrev u : W
    u = (sql.update_task w id (row_of text task)).0

    abbrev tx : W
    tx = (sql.insert_audit u (dated uuid now event)).0

    module _ (updated : (sql.update_task w id (row_of text task)).1 ≡ none)
        (inserted : (sql.insert_audit u (dated uuid now event)).1 ≡ none) where
      row-tx :
          (j : String) → laws.row tx j ≡ (if id == j then some (row_of text task) else laws.row w j)
      row-tx j =
          let there =
            Holds-some codec (laws.row w id) old
              (subst (Holds codec (laws.row w id)) found (shows.rows id)) in
          laws.audit_row u (dated uuid now event) j inserted
          ∙ laws.update_row w id j (row_of text task) updated
          ∙ ground (arith, there)

      rows-tx : (j : String) → Holds codec (laws.row tx j) (lookup j (insert id task m.tasks))
      rows-tx j = elim (Bool-cases (id == j)) [
        | inl hit ↦
            let left : laws.row tx j ≡ some (row_of text task) = ground (arith, row-tx j) in
            let right : lookup j (insert id task m.tasks) ≡ some task =
              ground (arith, lookup-insert id j task m.tasks) in
            subst (λ r. Holds codec r (lookup j (insert id task m.tasks))) (sym left)
              (subst (Holds codec (some (row_of text task))) (sym right)
                (text, encoded, row_of-HasColumns text task))
        | inr miss ↦
            let left : laws.row tx j ≡ laws.row w j = ground (arith, row-tx j) in
            let right : lookup j (insert id task m.tasks) ≡ lookup j m.tasks =
              ground (arith, lookup-insert id j task m.tasks) in
            subst (λ r. Holds codec r (lookup j (insert id task m.tasks))) (sym left)
              (subst (Holds codec (laws.row w j)) (sym right) (shows.rows j))
      ]

      trail-tx :
          (j : String)
          → laws.trail tx j ≡ (
              if event.task_id == j
              then laws.trail w j ++ dated uuid now event ∷ []
              else laws.trail w j)
      unfolding dated
      trail-tx j = ground (
        arith,
        laws.audit_trail u (dated uuid now event) j inserted,
        laws.update_trail w id j (row_of text task) updated,
      )

      events_of-tx :
          (j : String)
          → events_of j (logged o (stored m id task) (plain_event event)).events ≡ (
              if event.task_id == j
              then events_of j m.events ++ stamp o m.appended (plain_event event) ∷ []
              else events_of j m.events)
      unfolding append events_of
      events_of-tx j =
          let items =
            events_of event.task_id m.events ++ stamp o m.appended (plain_event event) ∷ [] in
          ground (
            arith,
            lookup-insert event.task_id j items m.events,
            eq_iff event.task_id j,
            ap (λ k. lookup k m.events),
          )

      trails-tx :
          (j : String)
          → plain (laws.trail tx j)
            ≡ plain (events_of j (logged o (stored m id task) (plain_event event)).events)
      unfolding dated stamp
      trails-tx j = elim (Bool-cases (event.task_id == j)) [
        | inl hit ↦
            let before = laws.trail w j in
            let after = events_of j m.events in
            let left : laws.trail tx j ≡ before ++ dated uuid now event ∷ [] =
              trail-tx j ∙ rw hit refl in
            let right =
              events_of-tx j
              ∙ ap (λ b. if b then after ++ stamp o m.appended (plain_event event) ∷ [] else after)
                  hit in
            ap plain left
            ∙ map-append plain_event before (dated uuid now event ∷ [])
            ∙ ap (λ xs. xs ++ plain_event event ∷ []) (shows.trails j)
            ∙ sym (map-append plain_event after (stamp o m.appended (plain_event event) ∷ []))
            ∙ sym (ap plain right)
        | inr miss ↦
            let left : laws.trail tx j ≡ laws.trail w j = trail-tx j ∙ rw miss refl in
            let right : events_of j (logged o (stored m id task) (plain_event event)).events
                ≡ events_of j m.events =
              events_of-tx j ∙ rw miss refl in
            ap plain left ∙ shows.trails j ∙ sym (ap plain right)
      ]

      pub written : Shows codec laws tx (logged o (stored m id task) (plain_event event))
      unfolding append
      written = record { rows = rows-tx; trails = trails-tx }
