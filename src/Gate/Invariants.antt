-- ===== src/Gate/Invariants.antt =====
-- What every step of the stored tasks of internal/application/gate keeps.
pub mod Evolution
pub mod Appends
use keelmesh.Prelude.{
  String, Bool, true, false, not, ◌||◌, ◌&&◌, ◌≡◌, subst, refl, sym, ap, ◌∙◌, lookup, insert,
  lookup-insert, Option, none, some, List, [], ◌∷◌, ◌++◌, map, count, count-append, ◌+◌, arith,
  ◌==◌, eq_iff, if◌then◌else◌, inl, inr, Bool-cases,
}
use mathlib.Core.List.{append-nil, map-append}
use keelmesh.Gate.Types.{TaskRecord, AuditEvent, audit_event, is_terminal, ProjectTaskEventRequest}
use keelmesh.Gate.Memory.{Memory, events_of}
use keelmesh.Gate.Service.{plain_event}
use keelmesh.Gate.Handlers.{apply_event, mark_event}
use keelmesh.Gate.Execution.{next_attempt}
use keelmesh.Gate.Shared.{Shared, stored, posted}
use keelmesh.Gate.Changes.{Allowed, Change, Note}

-- What a task keeps for its whole life.
pub record SameTask (old new : TaskRecord) : Type 0 where
  pub channel : new.channel_id ≡ old.channel_id
  pub target : new.target_id ≡ old.target_id
  pub content : new.content ≡ old.content
  pub limit : new.max_attempts ≡ old.max_attempts
  pub approval : new.require_approval ≡ old.require_approval

apply_event-SameTask :
    (r : ProjectTaskEventRequest) (old mid : TaskRecord)
    → apply_event r old ≡ some mid
    → SameTask old (mark_event r mid)
unfolding apply_event mark_event
apply_event-SameTask r old mid e = ground arith

pub Allowed-SameTask : {old new : TaskRecord} → Allowed old new → SameTask old new
unfolding next_attempt
Allowed-SameTask (Allowed.started q e a) = ground arith
Allowed-SameTask (Allowed.exhausted q a e) = ground arith
Allowed-SameTask (Allowed.resumed f e) = ground arith
Allowed-SameTask (Allowed.approved a w e) = ground arith
Allowed-SameTask (Allowed.cancelled x l e) = ground arith
Allowed-SameTask (Allowed.recovered f l e) = ground arith
Allowed-SameTask {old} (Allowed.projected r mid later live applied e) =
    subst (SameTask old) (sym e) (apply_event-SameTask r old mid applied)
Allowed-SameTask (Allowed.finished x l e) = ground arith
Allowed-SameTask (Allowed.broken x l e) = ground arith

-- No audited action replaces a cancelled record.
pub Allowed-live : {old new : TaskRecord} → Allowed old new → (old.state == "cancelled") ≡ false
Allowed-live (Allowed.started q e a) = rw q refl
Allowed-live (Allowed.exhausted q a e) = rw q refl
Allowed-live (Allowed.resumed f e) = rw f refl
Allowed-live (Allowed.approved a w e) = rw w refl
Allowed-live (Allowed.cancelled x l e) = ground arith
Allowed-live (Allowed.recovered f l e) = elim l [ inl q ↦ rw q refl | inr q ↦ rw q refl ]
Allowed-live (Allowed.projected r mid later live applied e) = ground arith
Allowed-live (Allowed.finished x l e) = l
Allowed-live (Allowed.broken x l e) = l

-- The audit trail as a path: every event starts in the state in which the one before it ended.
unfoldable pub leads : String → List AuditEvent → Option String
leads from [] = some from
leads from (e ∷ rest) =
    let more = leads e.to_state rest in if e.from_state == from then more else none

leads-append :
    (from via : String) (es : List AuditEvent) (e : AuditEvent)
    → leads from es ≡ some via
    → e.from_state ≡ via
    → leads from (es ++ e ∷ []) ≡ some e.to_state
unfolding leads
leads-append from via [] e h f = ground (arith, eq_iff e.from_state from)
leads-append from via (d ∷ es) e h f = ground (arith, leads-append d.to_state via es e)

-- The state of a stored task; a task that is not stored has none yet.
unfoldable pub state_of : Memory → String → String
state_of m id = elim (lookup id m.tasks) [ none ↦ "" | some task ↦ task.state ]

-- The pending events of a task.
unfoldable pub pending_of : String → List AuditEvent → List AuditEvent
pending_of id [] = []
pending_of id (e ∷ rest) =
    let more = pending_of id rest in if e.task_id == id then e ∷ more else more

-- The events of a task in its trail, and those whose appends are still to come, without the ids and
-- dates that the store gives.
unfoldable pub recorded : String → Shared → List AuditEvent
recorded id w =
    map plain_event (events_of id w.memory.events) ++ map plain_event (pending_of id w.pending)

-- The events of a task, each as often as it was recorded, in an order in which they lead from
-- nothing to the state that is stored.
abbrev pub Chain : Shared → String → Type 0
Chain w id =
    (history : List AuditEvent) × (leads "" history ≡ some (state_of w.memory id))
    × ((test : AuditEvent → Bool) → count test history ≡ count test (recorded id w))

abbrev pub IsAudited : Shared → Type 0
IsAudited w = (id : String) → Chain w id

pending_of-append :
    (id : String) (es : List AuditEvent) (e : AuditEvent)
    → pending_of id (es ++ e ∷ []) ≡ pending_of id es ++ (if e.task_id == id then e ∷ [] else [])
unfolding pending_of
pending_of-append id [] e = ground arith
pending_of-append id (d ∷ es) e = ground (arith, pending_of-append id es e)

state_of-stored :
    (w : Shared) (task : TaskRecord) (id j : String)
    → state_of (stored w id task).memory j ≡ (if id == j then task.state else state_of w.memory j)
unfolding state_of
state_of-stored w task id j = ground (arith, lookup-insert id j task w.memory.tasks)

-- A write with its event.
module _ (w : Shared) (task : TaskRecord) (id action from reason : String) where
  abbrev event : AuditEvent
  event = audit_event id action from task.state reason

  abbrev written : Shared
  written = posted (stored w id task) event

  count-recorded :
      (test : AuditEvent → Bool) (j : String)
      → count test (recorded j written)
        ≡ count test (recorded j w) + (if id == j && test event then 1 else 0)
  unfolding recorded
  count-recorded test j =
      let trail = map plain_event (events_of j w.memory.events) in
      let now = pending_of j w.pending in
      elim (Bool-cases (id == j)) [
        | inl hit ↦
            let more : pending_of j (w.pending ++ event ∷ []) ≡ now ++ event ∷ [] =
              pending_of-append j w.pending event ∙ rw hit refl in
            let split = map-append plain_event now (event ∷ []) in
            ap (λ es. count test (trail ++ map plain_event es)) more
            ∙ ap (λ es. count test (trail ++ es)) split
            ∙ ground (
              arith,
              hit,
              count-append test trail (map plain_event now ++ event ∷ []),
              count-append test (map plain_event now) (event ∷ []),
              count-append test trail (map plain_event now),
            )
        | inr miss ↦
            let more : pending_of j (w.pending ++ event ∷ []) ≡ now =
              pending_of-append j w.pending event ∙ rw miss (append-nil now) in
            ap (λ es. count test (trail ++ map plain_event es)) more ∙ ground (arith, miss)
      ]

  written-IsAudited : state_of w.memory id ≡ from → IsAudited w → IsAudited written
  written-IsAudited same h j = elim (Bool-cases (id == j)) [
    | inl hit ↦
        let e = (eq_iff id j).0 hit in
        let (history, chain, often) = h id in
        (
          history ++ event ∷ [],
          leads-append "" from history event (chain ∙ ap some same) refl
              ∙ ap some (sym (state_of-stored w task id j ∙ rw hit refl)),
          λ test.
              let own = ap (λ k. count test (recorded k w)) e in
              ground (
                arith,
                hit,
                count-append test history (event ∷ []),
                often test,
                own,
                count-recorded test j,
              ),
        )
    | inr miss ↦
        let (history, chain, often) = h j in
        (
          history,
          chain ∙ ap some (sym (state_of-stored w task id j ∙ rw miss refl)),
          λ test. ground (arith, miss, often test, count-recorded test j),
        )
  ]

pub Change-IsAudited : {w w' : Shared} → Change w w' → IsAudited w → IsAudited w'
unfolding state_of
Change-IsAudited {w} (Change.keep e) h = subst IsAudited (sym e) h
Change-IsAudited {w} (Change.create id task absent e) h =
    subst IsAudited (sym e)
      (written-IsAudited w task id "created" "" "" (rw (absent, state_of) refl) h)
Change-IsAudited {w} (Change.move id action reason read old new seen found same a e) h =
    subst IsAudited (sym e)
      (written-IsAudited w new id action read.state reason (rw (found, state_of) same) h)

-- A progress report that nothing came into leaves every state and the trail alone.
noted-IsAudited :
    (w : Shared) (old : TaskRecord) (id state content : String)
    → lookup id w.memory.tasks ≡ some old
    → IsAudited w
    → IsAudited (stored w id (record old { progress_state = state; progress = content }))
unfolding state_of recorded
noted-IsAudited w old id state content found h j =
    let (history, chain, often) = h j in
    let kept : state_of
          (stored w id (record old { progress_state = state; progress = content })).memory j
        ≡ state_of w.memory j =
      ground (
        arith,
        eq_iff id j,
        lookup-insert id j (record old { progress_state = state; progress = content })
            w.memory.tasks,
      ) in
    (history, chain ∙ ap some (sym kept), often)

pub Note-IsAudited :
    {w w' : Shared} → Note w w' → w.view ≡ w.memory.tasks → IsAudited w → IsAudited w'
Note-IsAudited (Note.skip e) fresh h = subst IsAudited (sym e) h
Note-IsAudited {w} (Note.note id state content read seen live e) fresh h =
    subst IsAudited (sym e)
      (noted-IsAudited w read id state content (ap (lookup id) (sym fresh) ∙ seen) h)
