-- ===== src/Tests/Agent.antt =====
-- The theorems on internal/application/agent at concrete inputs.
use keelmesh.Prelude.{
  ◌+◌, ◌<◌, ◌≡◌, ◌↔◌, ◌⊎◌, ◌++◌, refl, lookup, none, some, arith, List, [], ◌∷◌, drop, length,
}
use keelmesh.Agent.Events.{TaskEvent, events_of, list}
use keelmesh.Agent.Service.{Service, event, publish_all, subscribe, follow}
use keelmesh.Agent.Laws.{
  IsOrdered, until_end, publish_all-IsOrdered, list-drop, subscribe-none_iff, follow-until_end,
}

abbrev empty : Service
empty = record { events = []; last_events = []; listeners = [] }

empty-IsOrdered : IsOrdered []
unfolding events_of lookup
empty-IsOrdered id = tt

abbrev emitted : List TaskEvent
emitted =
    event "t1" "running" "" "" ∷ event "t2" "running" "" "" ∷ event "t1" "final" "done" "" ∷ []

publish_all-IsOrdered_example : IsOrdered (publish_all empty emitted 7).events
publish_all-IsOrdered_example = publish_all-IsOrdered empty emitted 7 empty-IsOrdered

abbrev published : Service
published = publish_all empty emitted 7

published-IsOrdered : IsOrdered published.events
published-IsOrdered = publish_all-IsOrdered empty emitted 7 empty-IsOrdered

list-drop_example : list published.events "t1" 1 ≡ drop 1 (events_of published.events "t1")
list-drop_example = list-drop published.events "t1" 1 published-IsOrdered

subscribe-none_iff_example :
    (subscribe published "t1" 0 ≡ none ↔ 0 + 16 < length (events_of published.events "t1"))
    × ((subscribe published "t1" 0 ≡ none)
        ⊎ (subscribe published "t1" 0
            ≡ some (record published {
              listeners =
                  record { task_id = "t1"; queue = drop 0 (events_of published.events "t1") }
                  ∷ published.listeners;
            })))
subscribe-none_iff_example = subscribe-none_iff published "t1" 0 published-IsOrdered

abbrev numbered : List TaskEvent
numbered =
    record (event "t1" "running" "" "") { sequence = 3 }
    ∷ record (event "t1" "progress" "" "") { sequence = 4 }
    ∷ record (event "t1" "running" "" "") { sequence = 5 }
    ∷ []

abbrev later : List TaskEvent
later = record (event "t1" "final" "again" "") { sequence = 6 } ∷ []

follow-until_end_example :
    follow 2 (numbered ++ drop 1 (numbered ++ later)) ≡ until_end (numbered ++ later)
follow-until_end_example =
    follow-until_end 2 1 numbered later (refl, (refl, (refl, (refl, tt)))) (omega arith)
