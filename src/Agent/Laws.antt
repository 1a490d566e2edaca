-- ===== src/Agent/Laws.antt =====
-- What the event store and the event stream of internal/application/agent keep.
use keelmesh.Prelude.{
  ℕ, zero, suc, ◌+◌, ◌<◌, ◌≤◌, String, ◌≡◌, refl, sym, ap, ◌∙◌, subst, lookup-insert, none, List,
  [], ◌∷◌, ◌++◌, length, ◌==◌, arith, if◌then◌else◌, if_cases, drop, length-drop, blank, Bool-cases,
  inl, inr, ◌↔◌, true, leb, ltb, some, ◌⊎◌, length-append,
}
use mathlib.Core.List.{append-nil, append_assoc}
use keelmesh.Agent.Events.{TaskEvent, EventStore, events_of, number, append, after, list}
use keelmesh.Agent.Service.{send_replay, Service, publish, publish_all, subscribe, follow, ends}

-- Events that are numbered one after the other, from a number on.
abbrev pub IsNumbered : ℕ → List TaskEvent → Type 0
IsNumbered n [] = Unit {0}
IsNumbered n (e ∷ rest) = (e.sequence ≡ n) × IsNumbered (suc n) rest

IsNumbered-append :
    (n : ℕ) (es : List TaskEvent) (e : TaskEvent)
    → IsNumbered n es
    → e.sequence ≡ n + length es
    → IsNumbered n (es ++ e ∷ [])
IsNumbered-append n [] e h q = (omega arith, tt)
IsNumbered-append n (d ∷ es) e h q = (h.0, IsNumbered-append (suc n) es e h.1 (omega arith))

-- Every task's events have the numbers 1, 2, 3, ….
abbrev pub IsOrdered : EventStore → Type 0
IsOrdered store = (id : String) → IsNumbered 1 (events_of store id)

append-IsOrdered :
    (store : EventStore) (e : TaskEvent) (now : ℕ)
    → IsOrdered store
    → IsOrdered (append store e now).0
unfolding append
append-IsOrdered store e now h id = elim (Bool-cases (e.task_id == id)) [
  | inl hit ↦
      let items = events_of store e.task_id in
      let e' = number e (length items + 1) now in
      let found : events_of (append store e now).0 id ≡ items ++ e' ∷ [] =
        ground (arith, lookup-insert e.task_id id (items ++ e' ∷ []) store) in
      subst (IsNumbered 1) (sym found) (IsNumbered-append 1 items e' (h e.task_id) (omega arith))
  | inr miss ↦
      let items = events_of store e.task_id in
      let e' = number e (length items + 1) now in
      let found : events_of (append store e now).0 id ≡ events_of store id =
        ground (arith, lookup-insert e.task_id id (items ++ e' ∷ []) store) in
      subst (IsNumbered 1) (sym found) (h id)
]

publish-IsOrdered :
    (s : Service) (e : TaskEvent) (now : ℕ)
    → IsOrdered s.events
    → IsOrdered (publish s e now).events
unfolding publish
publish-IsOrdered s e now h =
    if_cases (λ (t : Service). IsOrdered t.events) (blank e.task_id) (λ _. h)
      λ _. append-IsOrdered s.events e now h

-- Whatever events are published, where the stored events of every task are numbered 1, 2, 3, …
-- without a gap, they are so afterwards.
pub publish_all-IsOrdered :
    (s : Service) (es : List TaskEvent) (now : ℕ)
    → IsOrdered s.events
    → IsOrdered (publish_all s es now).events
unfolding publish_all
publish_all-IsOrdered s [] now h = h
publish_all-IsOrdered s (e ∷ es) now h =
    publish_all-IsOrdered (publish s e now) es now (publish-IsOrdered s e now h)

after_all : (n m : ℕ) (es : List TaskEvent) → n ≤ m → IsNumbered (suc m) es → after n es ≡ es
unfolding after
after_all n m [] h k = refl
after_all n m (e ∷ es) h k = ground (arith, after_all n (suc m) es (omega arith) k.1)

after-drop : (n m : ℕ) (es : List TaskEvent) → IsNumbered (suc m) es → after (m + n) es ≡ drop n es
unfolding after
after-drop zero m es k = after_all (m + 0) m es (omega arith) k
after-drop (suc n) m [] k = refl
after-drop (suc n) m (e ∷ es) k =
    let same : suc m + n ≡ m + suc n = omega arith in
    ground (arith, ap (λ i. after i es) same, after-drop n (suc m) es k.1)

-- Where the stored events of every task are numbered 1, 2, 3, … without a gap, a listing after a
-- number holds exactly the events that follow that many.
pub list-drop :
    (store : EventStore) (id : String) (n : ℕ)
    → IsOrdered store
    → list store id n ≡ drop n (events_of store id)
unfolding list
list-drop store id n h =
    let same : 0 + n ≡ n = omega arith in
    ap (λ i. after i (events_of store id)) (sym same) ∙ after-drop n 0 (events_of store id) (h id)

send_replay-through :
    (queue replay : List TaskEvent)
    → length queue ≤ 16
    → (send_replay queue replay).0 ≡ leb (length queue + length replay) 16
unfolding send_replay
send_replay-through queue [] room = ground arith
send_replay-through queue (e ∷ rest) room = elim (Bool-cases (ltb (length queue) 16)) [
  | inl free ↦
      let size = length-append queue (e ∷ []) in
      ground (arith, size, free, send_replay-through (queue ++ e ∷ []) rest (ground (arith, size)))
  | inr full ↦ ground (arith, full)
]

send_replay-queue :
    (queue replay : List TaskEvent)
    → (send_replay queue replay).0 ≡ true
    → (send_replay queue replay).1 ≡ queue ++ replay
unfolding send_replay
send_replay-queue queue [] done = sym (append-nil queue)
send_replay-queue queue (e ∷ rest) done = elim (Bool-cases (ltb (length queue) 16)) [
  | inl free ↦
      ground
        (arith, free, send_replay-queue (queue ++ e ∷ []) rest, append_assoc queue (e ∷ []) rest)
  | inr full ↦ absurd (ground (arith, full))
]

-- Where the stored events of every task are numbered 1, 2, 3, … without a gap, a subscription after a
-- number waits for ever in its replay exactly when more than 16 events follow that many; and where
-- it returns, its channel holds the events that follow that many.
pub subscribe-none_iff :
    (s : Service) (id : String) (n : ℕ)
    → IsOrdered s.events
    → (subscribe s id n ≡ none ↔ n + 16 < length (events_of s.events id))
      × ((subscribe s id n ≡ none)
          ⊎ (subscribe s id n
              ≡ some (record s {
                listeners =
                    record { task_id = id; queue = drop n (events_of s.events id) } ∷ s.listeners;
              })))
unfolding subscribe
subscribe-none_iff s id n h =
    let replay = list-drop s.events id n h in
    let size = length-drop n (events_of s.events id) in
    let length_replay = ap (λ es. length es) replay in
    let through = send_replay-through [] (list s.events id n) (omega arith) in
    (
      (
        λ e. ground (arith, through, length_replay, size),
        λ more. ground (arith, through, length_replay, size),
      ),
      elim (Bool-cases (send_replay [] (list s.events id n)).0) [
        | inl done ↦
            inr (ground (arith, done, send_replay-queue [] (list s.events id n) done, replay))
        | inr waits ↦ inl (ground (arith, waits))
      ],
    )

-- The events up to the first that ends the task, and that one.
pub until_end : List TaskEvent → List TaskEvent
until_end [] = []
until_end (e ∷ rest) = let more = until_end rest in if ends e then e ∷ [] else e ∷ more

follow_later : (n : ℕ) (es : List TaskEvent) → IsNumbered (suc n) es → follow n es ≡ until_end es
unfolding follow until_end
follow_later n [] h = refl
follow_later n (e ∷ es) h = ground (arith, ap (λ i. follow i es) h.0, follow_later (suc n) es h.1)

-- Events that a client has seen are not sent again.
follow_seen :
    (n m : ℕ) (es : List TaskEvent)
    → IsNumbered (suc m) es
    → follow (m + n) es ≡ until_end (drop n es)
unfolding follow until_end
follow_seen zero m es h = ap (λ i. follow i es) (omega arith) ∙ follow_later m es h
follow_seen (suc n) m [] h = refl
follow_seen (suc n) m (e ∷ es) h =
    let same : suc m + n ≡ m + suc n = omega arith in
    ground (arith, h.0, ap (λ i. follow i es) same, follow_seen n (suc m) es h.1)

-- Replayed events, and then what is delivered after them.
follow_replay :
    (m : ℕ) (replay live delivered : List TaskEvent)
    → IsNumbered (suc m) (replay ++ live)
    → follow (m + length replay) delivered ≡ until_end live
    → follow m (replay ++ delivered) ≡ until_end (replay ++ live)
unfolding follow until_end
follow_replay m [] live delivered h e = ap (λ i. follow i delivered) (omega arith) ∙ e
follow_replay m (x ∷ replay) live delivered h e =
    let same : suc m + length replay ≡ m + suc (length replay) = omega arith in
    ground (
      arith,
      h.0,
      ap (λ i. follow i (replay ++ delivered)) h.0,
      follow_replay (suc m) replay live delivered h.1 (ap (λ i. follow i delivered) same ∙ e),
    )

drop_replay : (replay live : List TaskEvent) → drop (length replay) (replay ++ live) ≡ live
drop_replay [] live = refl
drop_replay (x ∷ replay) live = drop_replay replay live

-- A part of the replay that is delivered again is not sent again.
follow_again :
    (m k : ℕ) (replay live : List TaskEvent)
    → IsNumbered (suc m) (replay ++ live)
    → k ≤ length replay
    → follow (m + length replay) (drop k (replay ++ live)) ≡ until_end live
follow_again m zero replay live h within =
    follow_seen (length replay) m (replay ++ live) h ∙ ap until_end (drop_replay replay live)
follow_again m (suc k) [] live h within = absurd (omega arith)
follow_again m (suc k) (x ∷ replay) live h within =
    let same : m + suc (length replay) ≡ suc m + length replay = omega arith in
    ap (λ i. follow i (drop k (replay ++ live))) same
    ∙ follow_again (suc m) k replay live h.1 (omega arith)

-- Where a channel delivers the replayed events after the one that a client has seen, numbered without
-- a gap, and then once more the replay from any place on, and the events that are numbered after it,
-- the stream sends each event once and in order, up to the first that ends the task.
pub follow-until_end :
    (m k : ℕ) (replay live : List TaskEvent)
    → IsNumbered (suc m) (replay ++ live)
    → k ≤ length replay
    → follow m (replay ++ drop k (replay ++ live)) ≡ until_end (replay ++ live)
follow-until_end m k replay live h within =
    follow_replay m replay live (drop k (replay ++ live)) h (follow_again m k replay live h within)
