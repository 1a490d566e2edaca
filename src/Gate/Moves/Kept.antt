-- ===== src/Gate/Moves/Kept.antt =====
-- What one move of a run (Gate/Moves) keeps of the stores of internal/application/gate/service.go.
use keelmesh.Prelude.{
  ℕ, zero, suc, String, Map, ◌==◌, ◌||◌, ◌≡◌, refl, sym, ap, ◌∙◌, subst, none, some, List, [], ◌∷◌,
  All, arith, Error, lookup, get_elem?, if_cases, option_cases, eq_iff, Bool-cases, inl, inr,
}
use keelmesh.Gate.Types.{TaskRecord}
use keelmesh.Gate.Memory.{Outside}
use keelmesh.Gate.Service.{Service}
use keelmesh.Gate.Shared.{Shared, IsShared}
use keelmesh.Gate.Changes.{Change}
use keelmesh.Gate.Refinement.Handlers.{
  resume_task-Change, approve_task-Change, cancel_task-Change, project_task_event-Change,
}
use keelmesh.Gate.Refinement.Admission.{
  ingest_inbound-Change, dispatch_task-Change, recover_entry-Change,
}
use keelmesh.Gate.Refinement.Execution.{begin-Change, persist_progress-Note, finish-Change}
use keelmesh.Gate.Invariants.{IsAudited, Change-IsAudited, Note-IsAudited, recorded}
use keelmesh.Gate.Invariants.Appends.{append_pending-IsAudited, tasks-append_pending}
use keelmesh.Gate.Invariants.Evolution.{
  Before, Before-refl, Before-trans, KeepsCancelled, Change-Before, Note-Before,
  Change-KeepsCancelled, Note-KeepsCancelled,
}
use keelmesh.Gate.Moves.{
  Call, projects, resumes, approves, cancels, recovers, begins, finishes, Move, ingests, dispatches,
  calls, reports, appends, System, tasks_of, seen, with_view, recover, call, move, IsUndisturbed,
}

with_view-IsShared :
    (s : Service Shared) (view : Map TaskRecord) → IsShared s → IsShared (with_view s view)
with_view-IsShared s view shared = record { tasks = shared.tasks; audit = shared.audit }

recover-Change :
    (s : Service Shared) (id : String) → IsShared s → Change s.world (recover s id).world
unfolding recover
recover-Change s id shared =
    option_cases (λ (t : Service Shared). Change s.world t.world) (lookup id s.world.view)
      (λ _. Change.keep refl)
      λ task found.
        if_cases (λ (t : Service Shared). Change s.world t.world)
          (task.state == "queued" || task.state == "running")
          (λ live.
            recover_entry-Change s shared (record { id = id; task = task }) found
              (elim (Bool-cases (task.state == "queued")) [
                | inl queued ↦ inl ((eq_iff task.state "queued").0 queued)
                | inr other ↦ inr ((eq_iff task.state "running").0 (ground (arith, live)))
              ]))
          λ _. Change.keep refl

-- The first contents, and every contents that a move may have read, are of the same tasks.
abbrev pub IsPast : System → Type 0
IsPast sys = All (λ v. Before v (tasks_of sys)) sys.past

nth-Before :
    (now : Map TaskRecord) (views : List (Map TaskRecord)) (n : ℕ)
    → All (λ v. Before v now) views
    → Before (elim (get_elem? views n) [ none ↦ now | some v ↦ v ]) now
nth-Before now [] n h = Before-refl now
nth-Before now (v ∷ views) zero h = h.0
nth-Before now (v ∷ views) (suc n) h = nth-Before now views n h.1

seen-Before : (sys : System) (n : ℕ) → IsPast sys → Before (seen sys n) (tasks_of sys)
unfolding seen
seen-Before sys n h =
    nth-Before (tasks_of sys) (tasks_of sys ∷ sys.past) n (Before-refl (tasks_of sys), h)

pub later-Before :
    (now next : Map TaskRecord) (views : List (Map TaskRecord))
    → Before now next
    → All (λ v. Before v now) views
    → All (λ v. Before v next) views
later-Before now next [] b h = tt
later-Before now next (v ∷ views) b h =
    (Before-trans v now next h.0 b, later-Before now next views b h.1)

seen-undisturbed : (sys : System) (n : ℕ) → n ≡ 0 → seen sys n ≡ tasks_of sys
unfolding seen
seen-undisturbed sys n e = ap (seen sys) e

view-IsAudited :
    (w : Shared) (view : Map TaskRecord) → IsAudited w → IsAudited (record w { view = view })
unfolding recorded
view-IsAudited w view h = h

module _ (render : Error → String) (o : Outside) where
  call-Change :
      (s : Service Shared) (c : Call) → IsShared s → Change s.world (call render o s c).world
  unfolding call
  call-Change s (projects r) shared = project_task_event-Change s shared r
  call-Change s (resumes r) shared = resume_task-Change s shared r
  call-Change s (approves r) shared = approve_task-Change s shared r
  call-Change s (cancels r) shared = cancel_task-Change s shared r
  call-Change s (recovers id) shared = recover-Change s id shared
  call-Change s (begins l) shared = begin-Change s shared l
  call-Change s (finishes l task answer q) shared = finish-Change s shared render l task answer q

  pub move-IsAudited :
      (sys : System) (m : Move)
      → IsShared sys.service
      → IsUndisturbed m
      → IsAudited sys.service.world
      → IsAudited (move render o sys m).world
  unfolding move
  move-IsAudited sys (ingests r) shared _ h =
      let now = tasks_of sys in
      Change-IsAudited
        (ingest_inbound-Change render (with_view sys.service now)
          (with_view-IsShared sys.service now shared) r refl)
        (view-IsAudited sys.service.world now h)
  move-IsAudited sys (dispatches r) shared _ h =
      let now = tasks_of sys in
      Change-IsAudited
        (dispatch_task-Change render (with_view sys.service now)
          (with_view-IsShared sys.service now shared) r refl)
        (view-IsAudited sys.service.world now h)
  move-IsAudited sys (calls n c) shared _ h =
      Change-IsAudited
        (call-Change (with_view sys.service (seen sys n)) c
          (with_view-IsShared sys.service (seen sys n) shared))
        (view-IsAudited sys.service.world (seen sys n) h)
  move-IsAudited sys (reports n task state content d q) shared undisturbed h =
      Note-IsAudited
        (persist_progress-Note (with_view sys.service (seen sys n))
          (with_view-IsShared sys.service (seen sys n) shared) task state content d q)
        (seen-undisturbed sys n undisturbed) (view-IsAudited sys.service.world (seen sys n) h)
  move-IsAudited sys (appends n) shared _ h = append_pending-IsAudited o sys.service.world n h

  pub move-KeepsCancelled :
      (sys : System) (m : Move)
      → IsShared sys.service
      → IsUndisturbed m
      → KeepsCancelled (tasks_of sys) (move render o sys m).world.memory.tasks
  unfolding move
  move-KeepsCancelled sys (ingests r) shared _ =
      let now = tasks_of sys in
      Change-KeepsCancelled (
        ingest_inbound-Change render (with_view sys.service now)
          (with_view-IsShared sys.service now shared) r refl)
  move-KeepsCancelled sys (dispatches r) shared _ =
      let now = tasks_of sys in
      Change-KeepsCancelled (
        dispatch_task-Change render (with_view sys.service now)
          (with_view-IsShared sys.service now shared) r refl)
  move-KeepsCancelled sys (calls n c) shared _ = Change-KeepsCancelled (
      call-Change (with_view sys.service (seen sys n)) c
        (with_view-IsShared sys.service (seen sys n) shared))
  move-KeepsCancelled sys (reports n task state content d q) shared undisturbed =
      Note-KeepsCancelled
        (persist_progress-Note (with_view sys.service (seen sys n))
          (with_view-IsShared sys.service (seen sys n) shared) task state content d q)
        (seen-undisturbed sys n undisturbed)
  move-KeepsCancelled sys (appends n) shared _ =
      λ id old found gone. ap (lookup id) (tasks-append_pending o sys.service.world n) ∙ found

  pub move-Before :
      (sys : System) (m : Move)
      → IsShared sys.service
      → IsPast sys
      → Before (tasks_of sys) (move render o sys m).world.memory.tasks
  unfolding move
  move-Before sys (ingests r) shared past =
      let now = tasks_of sys in
      Change-Before
        (ingest_inbound-Change render (with_view sys.service now)
          (with_view-IsShared sys.service now shared) r refl)
        (Before-refl now)
  move-Before sys (dispatches r) shared past =
      let now = tasks_of sys in
      Change-Before
        (dispatch_task-Change render (with_view sys.service now)
          (with_view-IsShared sys.service now shared) r refl)
        (Before-refl now)
  move-Before sys (calls n c) shared past =
      Change-Before
        (call-Change (with_view sys.service (seen sys n)) c
          (with_view-IsShared sys.service (seen sys n) shared))
        (seen-Before sys n past)
  move-Before sys (reports n task state content d q) shared past =
      Note-Before
        (persist_progress-Note (with_view sys.service (seen sys n))
          (with_view-IsShared sys.service (seen sys n) shared) task state content d q)
        (seen-Before sys n past)
  move-Before sys (appends n) shared past =
      subst (Before (tasks_of sys)) (sym (tasks-append_pending o sys.service.world n))
        (Before-refl (tasks_of sys))
