-- ===== src/Gate/Guarantees.antt =====
-- What single calls of internal/application/gate/service.go promise to their callers.
use keelmesh.Prelude.{
  ℕ, List, ◌∷◌, ◌⊎◌, String, Map, true, false, inc_64, trim, ◌||◌, ◌≡◌, ◌↔◌, refl, lookup,
  lookup-insert_self, lookup-delete, pos_part, blank, Option, none, some, arith, ◌==◌,
  if◌then◌else◌, eq_iff, eq_refl, ◌≤ℤ◌, Result, ok, err, Error, inl, inr, Option-cases,
}
use keelmesh.Gate.Types.{
  TaskRecord, Task, TaskOptions, DispatchResponse, audit_event, is_terminal, TaskRequest,
  AuthorizeOutboundRequest,
}
use keelmesh.Gate.Memory.{Outside, Memory, append}
use keelmesh.Gate.Service.{Service, Launch, dispatch_response, start_execution}
use keelmesh.Gate.Handlers.{cancel_task, cancel_reason}
use keelmesh.Gate.Admission.{authorization, authorize_outbound, accept, create_task, new_task}
use keelmesh.Gate.Execution.{begin, next_attempt}
use keelmesh.Gate.Local.{
  IsLocal, local_transition, transition_with_audit-local, create_with_audit-local, get-local,
}

module _ {W : Type 0} (s : Service W) (r : AuthorizeOutboundRequest) where
  abbrev pub Authorized : Type 0
  Authorized =
      ((blank r.channel_id || blank r.target_id || blank r.task_id) ≡ false)
      × (task : TaskRecord) × (s.tasks.get s.world r.task_id ≡ ok (some task))
      × (task.channel_id ≡ r.channel_id)
      × (task.target_id ≡ r.target_id)
      × ((task.state == "cancelled") ≡ false)

  authorized :
      (found : Result (Option TaskRecord))
      → s.tasks.get s.world r.task_id ≡ found
      → authorize_outbound s (some r) ≡ ok (authorization r true "")
      → Authorized
  unfolding authorize_outbound
  authorized (err e) read h = absurd (ground arith)
  authorized (ok none) read h = absurd (ground arith)
  authorized (ok (some task)) read h = (
    ground arith,
    task,
    read,
    ground (arith, eq_iff task.channel_id r.channel_id),
    ground (arith, eq_iff task.target_id r.target_id),
    ground arith,
  )

  allows : Authorized → authorize_outbound s (some r) ≡ ok (authorization r true "")
  unfolding authorize_outbound
  allows h = ground (
    arith,
    eq_iff h.1.channel_id r.channel_id,
    eq_iff h.1.target_id r.target_id,
    h.2,
    h.3,
    h.4,
    h.5,
    h.0,
  )

-- An outbound message is allowed exactly when its task id is given and names a stored task that has
-- the channel and the target of the message and is not cancelled. This holds for any repository.
pub authorize_outbound_iff :
    {W : Type 0} (s : Service W) (r : AuthorizeOutboundRequest)
    → authorize_outbound s (some r) ≡ ok (authorization r true "") ↔ Authorized s r
authorize_outbound_iff s r = (authorized s r (s.tasks.get s.world r.task_id) refl, allows s r)

-- The cancelled contexts, with one more where there is one.
abbrev pub also : Option ℕ → List ℕ → List ℕ
also none contexts = contexts
also (some context) contexts = context ∷ contexts

module _ (o : Outside) (render : Error → String) where
  accept-IsLocal :
      (s : Service Memory) (id channel target content : String) (metadata : Map String)
      (options : TaskOptions)
      → IsLocal o s
      → IsLocal o (accept render s id channel target content metadata options).0
  unfolding accept start_execution
  accept-IsLocal s id channel target content metadata options local = ground arith

  accept_again :
      (s : Service Memory) (id : String) (channel channel' target target' content content' : String)
      (metadata metadata' : Map String) (options options' : TaskOptions)
      → IsLocal o s
      → lookup id s.world.tasks ≡ none
      → let s' = (accept render s id channel target content metadata options).0 in
        accept render s' id channel' target' content' metadata' options' ≡ (
          s',
          dispatch_response id
              (if options.require_approval then "waiting_approval" else "queued")
              true
              "",
        )
  unfolding accept create_task new_task start_execution append
  accept_again s id c c' t t' n n' m m' p p' local fresh =
      let task = new_task c t n m p in
      let s' = (accept render s id c t n m p).0 in
      ground (
        arith,
        get-local o s local id,
        create_with_audit-local o s local id task (audit_event id "created" "" task.state ""),
        get-local o s' (accept-IsLocal s id c t n m p local) id,
        lookup-insert_self id task s.world.tasks,
      )

  begin_absent :
      (s : Service Memory) (l : Launch Memory) (task : Task)
      → IsLocal o s
      → lookup l.task_id s.world.tasks ≡ none
      → (begin s l).1 ≡ some task
      → ⊥
  unfolding begin
  begin_absent s l task local e started = ground (arith, get-local o s local l.task_id)

  -- A record with its next attempt counted.
  abbrev attempted : TaskRecord → TaskRecord
  attempted old = record old { state = "running"; attempt = inc_64 old.attempt }

  begin_found :
      (s : Service Memory) (l : Launch Memory) (task : Task) (old : TaskRecord)
      → IsLocal o s
      → lookup l.task_id s.world.tasks ≡ some old
      → (begin s l).1 ≡ some task
      → ((old.state == "queued") ≡ true)
        × (lookup l.task_id (begin s l).0.world.tasks ≡ some (attempted old))
        × ((pos_part old.max_attempts ≡ 0) ⊎ inc_64 old.attempt ≤ℤ old.max_attempts)
  unfolding begin local_transition append next_attempt
  begin_found s l task old local e started = ground (
    arith,
    get-local o s local l.task_id,
    transition_with_audit-local o s local l.task_id "queued" (next_attempt old)
        (audit_event l.task_id "started" "queued" "running" ""),
    lookup-insert_self l.task_id (next_attempt old) s.world.tasks,
  )

  cancel_absent :
      (s : Service Memory) (r : TaskRequest) (response : DispatchResponse)
      → IsLocal o s
      → lookup r.task_id s.world.tasks ≡ none
      → (cancel_task s (some r)).1 ≡ ok response
      → ⊥
  unfolding cancel_task
  cancel_absent s r response local f e = ground (arith, get-local o s local r.task_id)

  abbrev cancelled_record : TaskRequest → TaskRecord → TaskRecord
  cancelled_record r old = record old {
    state = "cancelled";
    error = if blank r.reason then "cancelled by operator" else trim r.reason;
  }

  cancel_found :
      (s : Service Memory) (r : TaskRequest) (response : DispatchResponse) (old : TaskRecord)
      → IsLocal o s
      → lookup r.task_id s.world.tasks ≡ some old
      → (cancel_task s (some r)).1 ≡ ok response
      → response.accepted ≡ true
      → (is_terminal old.state ≡ false)
        × (lookup r.task_id (cancel_task s (some r)).0.world.tasks ≡ some (cancelled_record r old))
  unfolding cancel_task local_transition append cancel_reason
  cancel_found s r response old local f e a = ground (
    arith,
    get-local o s local r.task_id,
    transition_with_audit-local o s local r.task_id old.state (cancelled_record r old)
        (audit_event r.task_id "cancelled" old.state "cancelled" (cancel_reason r.reason)),
    lookup-insert_self r.task_id (cancelled_record r old) s.world.tasks,
  )

  cancel_forgets :
      (s : Service Memory) (r : TaskRequest) (response : DispatchResponse) (old : TaskRecord)
      → IsLocal o s
      → lookup r.task_id s.world.tasks ≡ some old
      → (cancel_task s (some r)).1 ≡ ok response
      → response.accepted ≡ true
      → (lookup r.task_id (cancel_task s (some r)).0.cancels ≡ none)
        × ((cancel_task s (some r)).0.cancelled ≡ also (lookup r.task_id s.cancels) s.cancelled)
  unfolding cancel_task
  cancel_forgets s r response old local f e a = ground (
    arith,
    get-local o s local r.task_id,
    lookup-delete r.task_id r.task_id s.cancels,
    eq_refl r.task_id,
  )

  -- In a service that keeps the stores of `New()`, and for a task id that is not stored yet: the
  -- second of two admissions of the id, whatever it carries, changes nothing, starts nothing, and
  -- answers with the state that the first one stored.
  pub accept-accept :
      (s : Service Memory) (id : String) (channel channel' target target' content content' : String)
      (metadata metadata' : Map String) (options options' : TaskOptions)
      → IsLocal o s
      → lookup id s.world.tasks ≡ none
      → let s' = (accept render s id channel target content metadata options).0 in
        accept render s' id channel' target' content' metadata' options' ≡ (
          s',
          dispatch_response id
              (if options.require_approval then "waiting_approval" else "queued")
              true
              "",
        )
  accept-accept s id c c' t t' n n' m m' p p' local fresh =
      accept_again s id c c' t t' n n' m m' p p' local fresh

  -- In a service that keeps the stores of `New()`, a goroutine whose read and write of the task
  -- nothing comes between calls its executor only for a task that was queued, whose attempt count it
  -- has raised by one and stored as running, and whose attempt limit, if there is one, is not passed.
  pub begin-within_limit :
      (s : Service Memory) (l : Launch Memory) (task : Task)
      → IsLocal o s
      → (begin s l).1 ≡ some task
      → (old : TaskRecord) × (lookup l.task_id s.world.tasks ≡ some old)
        × (old.state ≡ "queued")
        × (lookup l.task_id (begin s l).0.world.tasks
            ≡ some (record old { state = "running"; attempt = inc_64 old.attempt }))
        × ((pos_part old.max_attempts ≡ 0) ⊎ inc_64 old.attempt ≤ℤ old.max_attempts)
  begin-within_limit s l task local started = elim (Option-cases (lookup l.task_id s.world.tasks)) [
    | inl e ↦ absurd (begin_absent s l task local e started)
    | inr (old, e) ↦
        let b = begin_found s l task old local e started in
        (old, e, (eq_iff old.state "queued").0 b.0, b.1, b.2)
  ]

  -- In a service that keeps the stores of `New()`, a cancellation that is accepted, and whose read and
  -- write nothing comes between, is of a stored task that is not terminal; it leaves the task
  -- cancelled, with the trimmed reason of the request as its error, or "cancelled by operator" where
  -- the reason is blank, and where the service has a cancel function for the task, it is called and
  -- forgotten; no other is called.
  pub cancel_task-accepted :
      (s : Service Memory) (r : TaskRequest) (response : DispatchResponse)
      → IsLocal o s
      → (cancel_task s (some r)).1 ≡ ok response
      → response.accepted ≡ true
      → (old : TaskRecord) × (lookup r.task_id s.world.tasks ≡ some old)
        × (is_terminal old.state ≡ false)
        × (lookup r.task_id (cancel_task s (some r)).0.world.tasks
            ≡ some (record old {
              state = "cancelled";
              error = if blank r.reason then "cancelled by operator" else trim r.reason;
            }))
        × (lookup r.task_id (cancel_task s (some r)).0.cancels ≡ none)
        × ((cancel_task s (some r)).0.cancelled ≡ also (lookup r.task_id s.cancels) s.cancelled)
  cancel_task-accepted s r response local e a =
      elim (Option-cases (lookup r.task_id s.world.tasks)) [
        | inl f ↦ absurd (cancel_absent s r response local f e)
        | inr (old, f) ↦
            let (live, written) = cancel_found s r response old local f e a in
            let (gone, called) = cancel_forgets s r response old local f e a in
            (old, f, live, written, gone, called)
      ]
