-- ===== src/Gate/Refinement/Execution.antt =====
-- The parts of `execute` of internal/application/gate/service.go as steps of `Change`. The
-- dispatchers do not write tasks.
use keelmesh.Prelude.{
  String, not, ◌≡◌, refl, sym, lookup, Option, none, some, arith, ◌==◌, if_cases, eq_iff,
  Option-cases, inl, inr, Result, ok, err, subst, Error,
}
use keelmesh.Gate.Types.{TaskRecord, Task, ExecutionResult, AuditEvent, audit_event, is_terminal}
use keelmesh.Gate.Store.{OutboundDispatcher}
use keelmesh.Gate.Service.{Launch, Service, transition_with_audit}
use keelmesh.Gate.Execution.{
  next_attempt, attempts_exceeded, fail_attempts, start_attempt, begin_queued, begin, put_progress,
  write_progress, persist_progress, deliver_final, transition_and_deliver,
  transition_with_audit_and_final_delivery, finish_failed, finish_done, finish,
}
use keelmesh.Gate.Shared.{Shared, IsShared, shared_repository, stored, get-shared, put-shared}
use keelmesh.Gate.Changes.{Allowed, Change, Note}
use keelmesh.Gate.Refinement.{Refines, transition-Change, get_cases}

-- A dispatcher that leaves the stored world alone.
abbrev pub IsQuiet : Option (OutboundDispatcher Shared) → Type 0
IsQuiet none = Unit
IsQuiet (some d) =
    ((w : Shared) (task : Task) (result : ExecutionResult) → (d.dispatch w task result).0 ≡ w)
    × ((send : Shared → Task → String → String → Shared × Option Error)
        → d.progress ≡ some send
        → (w : Shared) (task : Task) (state content : String) → (send w task state content).0 ≡ w)

abbrev Notes {ℓ} : {R : Type ℓ} → Service Shared → Service Shared × R → Type 0
Notes s res = Note s.world res.0.world

module _ (s : Service Shared) (shared : IsShared s) where
  world-fail_attempts :
      (id : String) (task : TaskRecord)
      → (fail_attempts s id task).world
        ≡ (transition_with_audit s id "queued"
            (record task { state = "failed"; error = "maximum attempts exceeded" })
            (audit_event id "failed" "queued" "failed" "maximum attempts exceeded")).0
  unfolding fail_attempts
  world-fail_attempts id task = refl

  world-start_attempt :
      (l : Launch Shared) (task : TaskRecord)
      → (start_attempt s l task).0.world
        ≡ (transition_with_audit s l.task_id "queued" task
            (audit_event l.task_id "started" "queued" "running" "")).0
  unfolding start_attempt
  world-start_attempt l task = ground arith

  begin_queued-Change :
      (l : Launch Shared) (task : TaskRecord)
      → lookup l.task_id s.world.view ≡ some task
      → task.state ≡ "queued"
      → Change s.world (begin_queued s l task).0.world
  unfolding begin_queued
  begin_queued-Change l task found queued =
      if_cases (Refines s) (attempts_exceeded (next_attempt task))
        (λ over. subst (Change s.world) (sym (world-fail_attempts l.task_id (next_attempt task))) (
          transition-Change s shared l.task_id "failed" "maximum attempts exceeded" "queued" task
            (record (next_attempt task) { state = "failed"; error = "maximum attempts exceeded" })
            found queued (Allowed.exhausted queued over refl)))
        λ under. subst (Change s.world) (sym (world-start_attempt l (next_attempt task))) (
          unfold next_attempt in
          transition-Change s shared l.task_id "started" "" "queued" task (next_attempt task) found
            queued (Allowed.started queued refl under))

  pub begin-Change : (l : Launch Shared) → Change s.world (begin s l).0.world
  unfolding begin
  begin-Change l =
      get_cases (Refines s) _ _ _ (get-shared s shared l.task_id) (λ _. Change.keep refl)
        λ task found.
          if_cases (Refines s) (not (task.state == "queued")) (λ _. Change.keep refl)
            λ queued.
              begin_queued-Change l task found
                ((eq_iff task.state "queued").0 (ground (arith, queued)))

  not_transactional : s.tasks.transactional ≡ none
  unfolding shared_repository
  not_transactional = rw shared.tasks

  world-transition_and_deliver :
      (id expected : String) (entry : TaskRecord) (event : AuditEvent) (task : Task)
      (result : ExecutionResult) (d : Option (OutboundDispatcher Shared))
      → IsQuiet d
      → (transition_and_deliver s id expected entry event task result d).0
        ≡ (transition_with_audit s id expected entry event).0
  unfolding transition_and_deliver deliver_final
  world-transition_and_deliver id expected entry event task result none quiet = ground arith
  world-transition_and_deliver id expected entry event task result (some d) quiet =
      ground (arith, quiet.0 (transition_with_audit s id expected entry event).0 task result)

  world-deliver :
      (id expected : String) (entry : TaskRecord) (event : AuditEvent) (task : Task)
      (result : ExecutionResult) (d : Option (OutboundDispatcher Shared))
      → IsQuiet d
      → (transition_with_audit_and_final_delivery s id expected entry event task result d).0
        ≡ (transition_with_audit s id expected entry event).0
  unfolding transition_with_audit_and_final_delivery
  world-deliver id expected entry event task result d quiet = ground (
    arith,
    not_transactional,
    world-transition_and_deliver id expected entry event task result d quiet,
  )

  finish_done-Change :
      (l : Launch Shared) (task : Task) (result : ExecutionResult) (current : TaskRecord)
      → IsQuiet l.dispatcher
      → lookup l.task_id s.world.view ≡ some current
      → (render : Error → String)
      → Change s.world (finish_done render s l task result current).world
  unfolding finish_done
  finish_done-Change l task result current quiet found render =
      if_cases (λ (t : Service Shared). Change s.world t.world) (current.state == "cancelled")
        (λ _. Change.keep refl)
        λ live. rw (world-deliver l.task_id current.state _ _ task result l.dispatcher quiet) (
          transition-Change s shared l.task_id "finished" "" current.state current
            (record current { state = "final"; result = result.content }) found refl
            (Allowed.finished result.content live refl))

  finish_failed-Change :
      (l : Launch Shared) (failure : Error) (current : TaskRecord)
      → lookup l.task_id s.world.view ≡ some current
      → (render : Error → String) → Change s.world (finish_failed render s l failure current).world
  unfolding finish_failed
  finish_failed-Change l failure current found render =
      if_cases (λ (t : Service Shared). Change s.world t.world) (current.state == "cancelled")
        (λ _. Change.keep refl)
        λ live.
          transition-Change s shared l.task_id "failed" (render failure) current.state current
            (record current { state = "failed"; error = render failure }) found refl
            (Allowed.broken (render failure) live refl)

  finish_found :
      (render : Error → String) (l : Launch Shared) (task : Task) (answer : Result ExecutionResult)
      (current : TaskRecord)
      → IsQuiet l.dispatcher
      → lookup l.task_id s.world.view ≡ some current
      → let done : Service Shared = elim answer [
        | err e ↦ finish_failed render s l e current
        | ok result ↦ finish_done render s l task result current
      ] in
        Change s.world done.world
  finish_found render l task (ok result) current quiet found =
      finish_done-Change l task result current quiet found render
  finish_found render l task (err e) current quiet found =
      finish_failed-Change l e current found render

  pub finish-Change :
      (render : Error → String) (l : Launch Shared) (task : Task) (answer : Result ExecutionResult)
      → IsQuiet l.dispatcher
      → Change s.world (finish render s l task answer).world
  unfolding finish
  finish-Change render l task answer quiet =
      get_cases (λ (t : Service Shared). Change s.world t.world) _ _ _
        (get-shared s shared l.task_id) (λ _. Change.keep refl)
        λ current found. finish_found render l task answer current quiet found

  world-put_progress :
      (task : Task) (state content : String) (d : Option (OutboundDispatcher Shared))
      (current : TaskRecord)
      → IsQuiet d
      → (put_progress s task state content d current).0.world ≡ stored s.world task.id current
  unfolding put_progress
  world-put_progress task state content none current quiet =
      ground (arith, put-shared s shared task.id current)
  world-put_progress task state content (some d) current quiet = elim (Option-cases d.progress) [
    | inl e ↦ ground (arith, put-shared s shared task.id current)
    | inr (send, e) ↦ ground (
      arith,
      put-shared s shared task.id current,
      quiet.1 send e (stored s.world task.id current) task state content,
    )
  ]

  pub world-write_progress :
      (task : Task) (state content : String) (d : Option (OutboundDispatcher Shared))
      (current : TaskRecord)
      → IsQuiet d
      → (write_progress s task state content d current).0.world
        ≡ stored s.world task.id (record current { progress_state = state; progress = content })
  unfolding write_progress
  world-write_progress task state content none current quiet = ground (
    arith,
    not_transactional,
    world-put_progress task state content none
        (record current { progress_state = state; progress = content }) quiet,
  )
  world-write_progress task state content (some d) current quiet = ground (
    arith,
    not_transactional,
    world-put_progress task state content (some d)
        (record current { progress_state = state; progress = content }) quiet,
  )

  pub persist_progress-Note :
      (task : Task) (state content : String) (d : Option (OutboundDispatcher Shared))
      → IsQuiet d
      → Note s.world (persist_progress s task state content d).0.world
  unfolding persist_progress
  persist_progress-Note task state content d quiet =
      get_cases (Notes s) _ _ _ (get-shared s shared task.id) (λ _. Note.skip refl)
        λ current found.
          if_cases (Notes s) (is_terminal current.state) (λ _. Note.skip refl)
            λ live.
              Note.note task.id state content current found live
                (world-write_progress task state content d current quiet)
