-- ===== src/Gate/Invariants/Appends.antt =====
-- The append of a pending event to the audit trail of internal/application/gate/audit.go, which may
-- come after other writes and appends.
use keelmesh.Prelude.{
  ℕ, zero, suc, ◌+◌, String, Bool, ◌&&◌, ◌≡◌, refl, sym, ap, ◌∙◌, some, List, [], ◌∷◌, ◌++◌, map,
  count, count-append, get_elem?, remove_at, arith, ◌==◌, eq_iff, if◌then◌else◌, lookup,
  lookup-insert, option_cases,
}
use mathlib.Core.List.{map-append}
use keelmesh.Gate.Types.{AuditEvent}
use keelmesh.Gate.Memory.{Outside, Memory, append, events_of, stamp}
use keelmesh.Gate.Service.{plain_event}
use keelmesh.Gate.Shared.{Shared, append_pending}
use keelmesh.Gate.Invariants.{pending_of, recorded, state_of, IsAudited}

abbrev one_if : Bool → ℕ
one_if b = if b then 1 else 0

count-remove :
    (test : AuditEvent → Bool) (id : String) (n : ℕ) (es : List AuditEvent) (e : AuditEvent)
    → get_elem? es n ≡ some e
    → count test (map plain_event (pending_of id es))
      ≡ count test (map plain_event (pending_of id (remove_at n es)))
        + one_if (e.task_id == id && test (plain_event e))
unfolding pending_of
count-remove test id n [] e found = absurd (ground (arith, found))
count-remove test id zero (d ∷ es) e found = ground (arith, found)
count-remove test id (suc n) (d ∷ es) e found = ground (arith, count-remove test id n es e found)

module _ (o : Outside) where
  events_of-append :
      (m : Memory) (e : AuditEvent) (id : String)
      → events_of id (append o m e).0.events ≡ (
          if e.task_id == id
          then events_of id m.events ++ stamp o m.appended e ∷ []
          else events_of id m.events)
  unfolding append events_of
  events_of-append m e id =
      let items = events_of e.task_id m.events ++ stamp o m.appended e ∷ [] in
      ground (
        arith,
        lookup-insert e.task_id id items m.events,
        eq_iff e.task_id id,
        ap (λ k. lookup k m.events),
      )

  plain-stamp : (n : ℕ) (e : AuditEvent) → plain_event (stamp o n e) ≡ plain_event e
  unfolding stamp
  plain-stamp n e = refl

  count-events :
      (test : AuditEvent → Bool) (m : Memory) (e : AuditEvent) (id : String)
      → count test (map plain_event (events_of id (append o m e).0.events))
        ≡ count test (map plain_event (events_of id m.events))
          + one_if (e.task_id == id && test (plain_event e))
  count-events test m e id =
      let before = events_of id m.events in
      let split = map-append plain_event before (stamp o m.appended e ∷ []) in
      let added =
        count-append test (map plain_event before) (plain_event (stamp o m.appended e) ∷ []) in
      let same = ap test (plain-stamp m.appended e) in
      ground (
        arith,
        ap (λ es. count test (map plain_event es)) (events_of-append m e id),
        ap (λ es. count test es) split,
        added,
        same,
      )

  appended : Shared → ℕ → AuditEvent → Shared
  appended w n e = record w { memory = (append o w.memory e).0; pending = remove_at n w.pending }

  count-appended :
      (test : AuditEvent → Bool) (w : Shared) (n : ℕ) (e : AuditEvent) (id : String)
      → get_elem? w.pending n ≡ some e
      → count test (recorded id (appended w n e)) ≡ count test (recorded id w)
  unfolding recorded appended
  count-appended test w n e id found =
      let old_trail = map plain_event (events_of id w.memory.events) in
      let trail = map plain_event (events_of id (append o w.memory e).0.events) in
      let left = map plain_event (pending_of id (remove_at n w.pending)) in
      let waiting = map plain_event (pending_of id w.pending) in
      ground (
        arith,
        count-append test trail left,
        count-append test old_trail waiting,
        count-events test w.memory e id,
        count-remove test id n w.pending e found,
      )

  appended-IsAudited :
      (w : Shared) (n : ℕ) (e : AuditEvent)
      → get_elem? w.pending n ≡ some e
      → IsAudited w
      → IsAudited (appended w n e)
  unfolding appended append state_of
  appended-IsAudited w n e found h id =
      let (history, chain, often) = h id in
      (history, chain, λ test. often test ∙ sym (count-appended test w n e id found))

  -- An append changes only where the events are recorded.
  pub append_pending-IsAudited :
      (w : Shared) (n : ℕ) → IsAudited w → IsAudited (append_pending o w n)
  unfolding append_pending appended
  append_pending-IsAudited w n h =
      option_cases IsAudited (get_elem? w.pending n) (λ _. h)
        λ e found. appended-IsAudited w n e found h

  pub tasks-append_pending :
      (w : Shared) (n : ℕ) → (append_pending o w n).memory.tasks ≡ w.memory.tasks
  unfolding append_pending append
  tasks-append_pending w n = ground arith
