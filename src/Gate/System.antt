-- ===== src/Gate/System.antt =====
-- What the stores of `New()` (internal/application/gate/service.go) keep over any run in which the
-- operations interleave.
use keelmesh.Prelude.{String, Bool, ◌≡◌, refl, some, List, [], ◌∷◌, All, Error, lookup, count}
use keelmesh.Gate.Types.{TaskRecord, AuditEvent}
use keelmesh.Gate.Memory.{Outside, events_of}
use keelmesh.Gate.Service.{Service}
use keelmesh.Gate.Shared.{Shared, shared_service, IsShared, shared_service-IsShared}
use keelmesh.Gate.Invariants.{SameTask, IsAudited, leads, state_of, recorded, pending_of}
use keelmesh.Gate.Invariants.Evolution.{Before, Before-refl, Before-trans}
use keelmesh.Gate.Moves.{Move, System, tasks_of, move, step, run, IsUndisturbed}
use keelmesh.Gate.Moves.Stores.{move-IsShared}
use keelmesh.Gate.Moves.Kept.{
  IsPast, later-Before, move-IsAudited, move-KeepsCancelled, move-Before,
}

module _ (render : Error → String) (o : Outside) where
  run-IsAudited_from :
      (sys : System) (ms : List Move)
      → IsShared sys.service
      → All IsUndisturbed ms
      → IsAudited sys.service.world
      → IsAudited (run render o sys ms).service.world
  unfolding run step
  run-IsAudited_from sys [] shared _ h = h
  run-IsAudited_from sys (m ∷ ms) shared (u, us) h =
      run-IsAudited_from (step render o sys m) ms (move-IsShared render o sys m shared) us
        (move-IsAudited render o sys m shared u h)

  run-Before :
      (sys : System) (ms : List Move)
      → IsShared sys.service
      → IsPast sys
      → Before (tasks_of sys) (tasks_of (run render o sys ms))
  unfolding run step
  run-Before sys [] shared past = Before-refl (tasks_of sys)
  run-Before sys (m ∷ ms) shared past =
      let next = (move render o sys m).world.memory.tasks in
      let b = move-Before render o sys m shared past in
      Before-trans (tasks_of sys) next (tasks_of (run render o (step render o sys m) ms)) b (
        run-Before (step render o sys m) ms (move-IsShared render o sys m shared)
          (b, later-Before (tasks_of sys) next sys.past b past))

  -- In a service that keeps the stores of `New()`, whatever operations interleave, with outbound
  -- dispatchers that do not write to the stores, and as long as no progress report is disturbed
  -- between its read and its write: the record of a task that is cancelled does not change, though a
  -- handler or a goroutine may have read the task before it was cancelled and write only now.
  pub run-cancelled :
      (sys : System) (ms : List Move) (id : String) (task : TaskRecord)
      → IsShared sys.service
      → All IsUndisturbed ms
      → lookup id (tasks_of sys) ≡ some task
      → task.state ≡ "cancelled"
      → lookup id (tasks_of (run render o sys ms)) ≡ some task
  unfolding run step
  run-cancelled sys [] id task shared _ found gone = found
  run-cancelled sys (m ∷ ms) id task shared (u, us) found gone =
      run-cancelled (step render o sys m) ms id task (move-IsShared render o sys m shared) us
        (move-KeepsCancelled render o sys m shared u id task found gone) gone

  -- In a service that keeps the stores of `New()`, whatever operations interleave from here on, also
  -- where a progress report writes over later changes, and with outbound dispatchers that do not
  -- write to the stores: a stored task is not lost, and keeps the channel, the target, the content,
  -- the attempt limit and the approval requirement that it has.
  pub run-SameTask :
      (s : Service Shared) (ms : List Move) (id : String) (task : TaskRecord)
      → IsShared s
      → lookup id s.world.memory.tasks ≡ some task
      → (new : TaskRecord) × (lookup id
            (tasks_of (run render o (record { service = s; past = [] }) ms))
          ≡ some new)
        × SameTask task new
  run-SameTask s ms id task shared found =
      run-Before (record { service = s; past = [] }) ms shared tt id task found

-- `New()`, before any call.
abbrev pub fresh_system : System
fresh_system = record { service = shared_service; past = [] }

fresh-IsAudited : IsAudited fresh_system.service.world
unfolding shared_service leads events_of state_of lookup recorded pending_of
fresh-IsAudited id = ([], refl, λ test. refl)

-- From `New()` on, whatever operations interleave, with outbound dispatchers that do not write to the
-- stores, and as long as no progress report is disturbed between its read and its write: the
-- events of every task, those in its trail and those that were written for and not yet appended,
-- have an order, each as often as it is there, in which the first starts from no state, each
-- starts in the state in which the one before it ends, and the last ends in the stored state. The
-- trail itself may have another order.
pub run-IsAudited :
    (render : Error → String) (o : Outside) (ms : List Move) (id : String)
    → All IsUndisturbed ms
    → let w = (run render o fresh_system ms).service.world in
      (history : List AuditEvent) × (leads "" history ≡ some (state_of w.memory id))
      × ((test : AuditEvent → Bool) → count test history ≡ count test (recorded id w))
run-IsAudited render o ms id undisturbed =
    run-IsAudited_from render o fresh_system ms shared_service-IsShared undisturbed fresh-IsAudited
      id
