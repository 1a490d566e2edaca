-- ===== src/Gate/Execution.antt =====
-- internal/application/gate/service.go: `execute` and what it calls. The executor runs between
-- `begin` and `finish`, so other calls may come in between; its answers are arguments.
use keelmesh.Prelude.{
  String, Bool, true, false, ◌&&◌, not, delete, Option, none, some, List, [], ◌∷◌, ◌==◌,
  if◌then◌else◌, pos, inc_64, ltb_ℤ, Result, ok, err, Error, wrap,
}
use keelmesh.Gate.Types.{TaskRecord, Task, ExecutionResult, AuditEvent, audit_event, is_terminal}
use keelmesh.Gate.Store.{OutboundDispatcher}
use keelmesh.Gate.Service.{
  Executor, plain, with_result, with_progress, Launch, Service, transition_with_audit,
}

-- The `Task` that the executor is given.
unfoldable pub task_of : String → TaskRecord → Task
task_of id entry = record {
  id = id;
  channel_id = entry.channel_id;
  target_id = entry.target_id;
  content = entry.content;
  metadata = entry.metadata;
  event_sequence = entry.last_sequence;
}

-- `current.State = "running"; current.Attempt++`.
unfoldable pub next_attempt : TaskRecord → TaskRecord
next_attempt task = record task { state = "running"; attempt = inc_64 task.attempt }

unfoldable pub attempts_exceeded : TaskRecord → Bool
attempts_exceeded task = ltb_ℤ (pos 0) task.max_attempts && ltb_ℤ task.max_attempts task.attempt

-- What the code keeps of an executor's answer: the plain interface returns an error only.
unfoldable pub answer_of : Executor → Result ExecutionResult → Result ExecutionResult
answer_of plain (ok r) = ok (record { content = "" })
answer_of executor answer = answer

-- `if err == nil { err = progressErr }`.
abbrev pub or_progress_error : Option Error → Result ExecutionResult → Result ExecutionResult
or_progress_error (some e) (ok r) = err e
or_progress_error _ answer = answer

module _ {W : Type 0} where
  -- The write of a task that has used up its attempts; its answer is ignored.
  unfoldable pub fail_attempts : Service W → String → TaskRecord → Service W
  fail_attempts s id current =
      let failed = record current { state = "failed"; error = "maximum attempts exceeded" } in
      let (w, _, _) =
        transition_with_audit s id "queued" failed
          (audit_event id "failed" "queued" "failed" failed.error) in
      record s { world = w }

  unfoldable pub start_attempt : Service W → Launch W → TaskRecord → Service W × Option Task
  unfolding task_of
  start_attempt s l current =
      let (w, started, failure) =
        transition_with_audit s l.task_id "queued" current
          (audit_event l.task_id "started" "queued" "running" "") in
      let s' = record s { world = w } in
      elim failure [
        | some e ↦ (s', none)
        | none ↦ (s', if started then some (task_of l.task_id l.entry) else none)
      ]

  unfoldable pub begin_queued : Service W → Launch W → TaskRecord → Service W × Option Task
  unfolding next_attempt attempts_exceeded fail_attempts start_attempt
  begin_queued s l current =
      if attempts_exceeded (next_attempt current)
      then (fail_attempts s l.task_id (next_attempt current), none)
      else start_attempt s l (next_attempt current)

  -- `execute` up to the call of the executor: the task that the executor is given, if it is called.
  unfoldable pub begin : Service W → Launch W → Service W × Option Task
  unfolding begin_queued
  begin s l = elim (s.tasks.get s.world l.task_id) [
    | err e ↦ (s, none)
    | ok none ↦ (s, none)
    | ok (some current) ↦
        if not (current.state == "queued") then (s, none) else begin_queued s l current
  ]

  abbrev pub with_world : Service W → W × Option Error → Service W × Option Error
  with_world s (w, failure) = (record s { world = w }, failure)

  -- The `Put` of `persistProgress`, and the dispatch of the progress.
  unfoldable pub put_progress :
      Service W
      → Task
      → String
      → String
      → Option (OutboundDispatcher W)
      → TaskRecord
      → Service W × Option Error
  put_progress s task state content dispatcher current =
      let (w, failure) = s.tasks.put s.world task.id current in
      let s' = record s { world = w } in
      elim failure [
        | some e ↦ (s', some (wrap "gatecore: persist task progress: %w" [] e))
        | none ↦ elim dispatcher [
          | none ↦ (s', none)
          | some d ↦ elim d.progress [
            | none ↦ (s', none)
            | some send ↦
                let (w', failure') = send w task state content in
                (
                  record s { world = w' },
                  elim failure' [
                    | none ↦ none
                    | some e ↦ some (wrap "gatecore: dispatch progress delivery: %w" [] e)
                  ],
                )
          ]
        ]
      ]

  -- What `persistProgress` writes of a record that it has read.
  unfoldable pub write_progress :
      Service W
      → Task
      → String
      → String
      → Option (OutboundDispatcher W)
      → TaskRecord
      → Service W × Option Error
  unfolding put_progress
  write_progress s task state content dispatcher current =
      let current' = record current { progress_state = state; progress = content } in
      elim s.tasks.transactional [
        | none ↦ put_progress s task state content dispatcher current'
        | some transact ↦ elim dispatcher [
          | none ↦ put_progress s task state content none current'
          | some d ↦ elim d.transactional [
            | none ↦ put_progress s task state content (some d) current'
            | some queue ↦
                let (w, _, failure) =
                  transact s.world task.id current.state current'
                    (audit_event task.id "agent_progress" current.state current.state state)
                    (queue.enqueue_progress task state content) in
                (record s { world = w }, failure)
          ]
        ]
      ]

  unfoldable pub persist_progress :
      Service W → Task → String → String → Option (OutboundDispatcher W) → Service W × Option Error
  unfolding write_progress
  persist_progress s task state content dispatcher = elim (s.tasks.get s.world task.id) [
    | err e ↦ (s, some (wrap "gatecore: load task progress state: %w" [] e))
    | ok none ↦ (s, none)
    | ok (some current) ↦
        if is_terminal current.state
        then (s, none)
        else write_progress s task state content dispatcher current
  ]

  -- The executor's progress calls, with the first error that a call met.
  unfoldable pub report_progress :
      Service W
      → Task
      → Option (OutboundDispatcher W)
      → Option Error
      → List (String × String)
      → Service W × Option Error
  unfolding persist_progress
  report_progress s task dispatcher failure [] = (s, failure)
  report_progress s task dispatcher (some e) (_ ∷ rest) =
      report_progress s task dispatcher (some e) rest
  report_progress s task dispatcher none ((state, content) ∷ rest) =
      let (s', failure) = persist_progress s task state content dispatcher in
      report_progress s' task dispatcher failure rest

  unfoldable pub deliver_final :
      W → Task → ExecutionResult → Option (OutboundDispatcher W) → W × Bool × Option Error
  deliver_final w task result none = (w, true, none)
  deliver_final w task result (some d) =
      let (w', failure) = d.dispatch w task result in
      elim failure [
        | none ↦ (w', true, none)
        | some e ↦ (w', false, some (wrap "gatecore: dispatch final delivery: %w" [] e))
      ]

  -- Where there is no common transaction, the delivery follows the write.
  unfoldable pub transition_and_deliver :
      Service W
      → String
      → String
      → TaskRecord
      → AuditEvent
      → Task
      → ExecutionResult
      → Option (OutboundDispatcher W)
      → W × Bool × Option Error
  unfolding deliver_final
  transition_and_deliver s id expected entry event task result dispatcher =
      let (w, applied, failure) = transition_with_audit s id expected entry event in
      elim failure [
        | some e ↦ (w, applied, some e)
        | none ↦ if not applied then (w, false, none) else deliver_final w task result dispatcher
      ]

  unfoldable pub transition_with_audit_and_final_delivery :
      Service W
      → String
      → String
      → TaskRecord
      → AuditEvent
      → Task
      → ExecutionResult
      → Option (OutboundDispatcher W)
      → W × Bool × Option Error
  unfolding transition_and_deliver
  transition_with_audit_and_final_delivery s id expected entry event task result dispatcher =
      elim s.tasks.transactional [
        | none ↦ transition_and_deliver s id expected entry event task result dispatcher
        | some transact ↦ elim dispatcher [
          | none ↦ transition_and_deliver s id expected entry event task result none
          | some d ↦ elim d.transactional [
            | none ↦ transition_and_deliver s id expected entry event task result (some d)
            | some queue ↦
                transact s.world id expected entry event (queue.enqueue_final task result)
          ]
        ]
      ]

  -- The deferred `delete(s.cancels, taskID)`.
  unfoldable pub leave : Service W → String → Service W
  leave s id = record s { cancels = delete id s.cancels }

  module _ (render : Error → String) where
    unfoldable pub finish_failed : Service W → Launch W → Error → TaskRecord → Service W
    finish_failed s l e current =
        if current.state == "cancelled"
        then s
        else let current' = record current { state = "failed"; error = render e } in
          let (w, _, _) =
            transition_with_audit s l.task_id current.state current'
              (audit_event l.task_id "failed" current.state "failed" current'.error) in
          record s { world = w }

    unfoldable pub finish_done :
        Service W → Launch W → Task → ExecutionResult → TaskRecord → Service W
    unfolding transition_with_audit_and_final_delivery
    finish_done s l task result current =
        if current.state == "cancelled"
        then s
        else let current' = record current { state = "final"; result = result.content } in
          let (w, _, _) =
            transition_with_audit_and_final_delivery s l.task_id current.state current'
              (audit_event l.task_id "finished" current.state "final" "") task result
              l.dispatcher in
          record s { world = w }

    -- `execute` from the executor's answer on.
    unfoldable pub finish : Service W → Launch W → Task → Result ExecutionResult → Service W
    unfolding finish_failed finish_done
    finish s l task answer = elim (s.tasks.get s.world l.task_id) [
      | err e ↦ s
      | ok none ↦ s
      | ok (some current) ↦ elim answer [
        | err e ↦ finish_failed s l e current
        | ok result ↦ finish_done s l task result current
      ]
    ]

    unfoldable pub run_executor :
        Service W → Launch W → Task → List (String × String) → Result ExecutionResult → Service W
    unfolding finish report_progress answer_of
    run_executor s l task calls answer = elim l.executor [
      | with_progress ↦
          let (s', failure) = report_progress s task l.dispatcher none calls in
          finish s' l task (or_progress_error failure answer)
      | with_result ↦ finish s l task answer
      | plain ↦ finish s l task (answer_of plain answer)
    ]

    -- `execute` from the start of the attempt on.
    unfoldable pub run_started :
        Service W
        → Launch W
        → List (String × String)
        → Result ExecutionResult
        → Option Task
        → Service W
    unfolding run_executor
    run_started s l calls answer none = s
    run_started s l calls answer (some task) = run_executor s l task calls answer

    -- A goroutine of `startExecution` that nothing interrupts.
    unfoldable pub execute :
        Service W → Launch W → List (String × String) → Result ExecutionResult → Service W
    unfolding begin run_started leave
    execute s l calls answer =
        let (s', started) = begin s l in leave (run_started s' l calls answer started) l.task_id
