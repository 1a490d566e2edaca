-- ===== src/Bridge/Receive/Laws.antt =====
-- One round of the receiver of internal/bootstrap/loopcore/bridge.go.
use keelmesh.Prelude.{
  ℕ, String, true, false, ◌||◌, Map, ◌≡◌, refl, ap, ◌∙◌, lookup, insert, lookup-insert_self, blank,
  Option, none, some, [], ◌∷◌, if_cases, option_cases, result_cases, Result, ok, err, Error, is,
  arith, trim, is_ok,
}
use keelmesh.Channel.Types.{Inbound}
use keelmesh.Bridge.Inbound.{inbound_domain}
use keelmesh.Api.Messages.{InboundMessage}
use keelmesh.Loop.Types.{RunResponse, Run}
use keelmesh.Loop.Service.{memory_repository, start_run, queue_steps, queued_step, new_run, persist}
use keelmesh.Bridge.Receive.{
  Clients, Round, run_request, start_task, receive, agent_step, annotated, preparation,
  placeholder_of,
}
use keelmesh.Bridge.Project.Step.{IsBridged}

-- The run that a round starts.
abbrev started : Inbound → Run
started m = new_run (run_request m) (queued_step agent_step ∷ [])

started-IsBridged : (m : Inbound) → IsBridged (started m)
unfolding new_run run_request
started-IsBridged m = record {
  step = record (queued_step agent_step) { state = "running" };
  steps = refl;
  id = refl;
  limit = refl;
  running = refl;
}

queued_agent : queue_steps (some agent_step ∷ []) ≡ ok (queued_step agent_step ∷ [])
unfolding queue_steps trim
queued_agent = refl

-- A start that succeeded stored the run, under an id that is not blank.
record IsStarted (runs : Map Run) (m : Inbound) (res : Map Run × Result RunResponse) : Type 0 where
  stored :
      is_ok res.1 ≡ true
      → (res.0 ≡ insert m.message_id (started m) runs) × (blank m.message_id ≡ false)

err-IsStarted :
    (runs : Map Run) (m : Inbound) (w : Map Run) (e : Error) → IsStarted runs m (w, err e)
err-IsStarted runs m w e = record { stored = λ h. cc }

start_run-IsStarted :
    (runs : Map Run) (m : Inbound)
    → IsStarted runs m (start_run memory_repository runs (some (run_request m)))
unfolding start_run run_request persist memory_repository queue_steps trim
start_run-IsStarted runs m =
    if_cases (IsStarted runs m) (blank m.message_id || blank m.message_id || blank m.content)
      (λ _. err-IsStarted runs m _ _)
      λ complete.
        option_cases (IsStarted runs m) (lookup m.message_id runs)
          (λ _. record { stored = λ h. (refl, ground (arith, complete)) })
          λ _ _. err-IsStarted runs m _ _

-- The task of a message: it has the message's id, and a stored run of the bridge.
abbrev pub IsTaskOf : String → Map Run → String → Type 0
IsTaskOf message_id runs id =
    (id ≡ message_id)
    × (blank id ≡ false)
    × ((run : Run) × (lookup id runs ≡ some run) × IsBridged run)

-- What a round leaves once GateCore has answered.
abbrev IsHandedOver : {C : Type 0} → Inbound → Round C (Map Run) → Type 0
IsHandedOver m round =
    (id : String) → round.projected ≡ some id → IsTaskOf m.message_id round.runs id

start_task-IsHandedOver :
    {C : Type 0} (clients : Clients C) (c : C) (runs : Map Run) (m : Inbound) (placeholder : String)
    (failure : Option Error)
    → IsHandedOver m (start_task clients memory_repository c runs m placeholder failure)
unfolding start_task
start_task-IsHandedOver clients c runs m placeholder (some e) =
    if_cases (IsHandedOver m) (is e "context canceled") (λ _ id h. cc) λ _ id h. cc
start_task-IsHandedOver clients c runs m placeholder none =
    let result = start_run memory_repository runs (some (run_request m)) in
    result_cases (IsHandedOver m) result.1 (λ _ _ id h. cc)
      λ _ f id h.
        let (stored, named) = (start_run-IsStarted runs m).stored (ap is_ok f) in
        let same : id ≡ m.message_id = ground (arith, h) in
        let lookup_started =
          (ap (λ j. lookup j result.0) same ∙ ap (lookup m.message_id) stored)
          ∙ lookup-insert_self m.message_id (started m) runs in
        (same, ap blank same ∙ named, (started m, lookup_started, started-IsBridged m))

-- Whatever the clients answer, a round over the memory repository of runs that hands a task to the
-- projection hands over the id of the message, which is not blank, and leaves under that id a
-- running run with the one step of the agent, of at most one iteration.
pub receive-IsBridged :
    {C : Type 0} (clients : Clients C) (c : C) (runs : Map Run) (now : ℕ) (m : InboundMessage)
    (id : String)
    → let round = receive clients memory_repository c runs now m in
      round.projected ≡ some id → IsTaskOf m.message_id round.runs id
unfolding receive annotated inbound_domain
receive-IsBridged clients c runs now m =
    let (c', prepared) = clients.prepare c (preparation m) in
    start_task-IsHandedOver clients _ runs (annotated now m (placeholder_of prepared)) _ _
