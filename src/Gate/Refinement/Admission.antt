-- ===== src/Gate/Refinement/Admission.antt =====
-- How internal/application/gate/service.go admits and recovers tasks, as steps of `Change`.
use keelmesh.Prelude.{
  String, Map, true, false, not, ◌||◌, ◌&&◌, ◌≡◌, refl, sym, lookup, blank, Option, none, some,
  arith, if_cases, inl, inr, subst, ap, ◌∙◌, Bool-cases, Error, ◌⊎◌,
}
use keelmesh.Gate.Types.{
  TaskRecord, TaskEntry, audit_event, TaskOptions, IngestInboundRequest, DispatchTaskRequest,
}
use keelmesh.Gate.Service.{Service, transition_with_audit, create_with_audit, start_execution}
use keelmesh.Gate.Admission.{
  new_task, create_task, accept, ingest_inbound, dispatch_task, recover_entry, recovered_reason,
}
use keelmesh.Gate.Shared.{Shared, IsShared, get-shared, create_with_audit-shared}
use keelmesh.Gate.Changes.{Allowed, Change}
use keelmesh.Gate.Refinement.{Refines, transition-Change, get_cases}

module _ (render : Error → String) (s : Service Shared) (shared : IsShared s) where
  world-create_task :
      (id : String) (task : TaskRecord)
      → (create_task render s id task).0.world
        ≡ (create_with_audit s id task (audit_event id "created" "" task.state "")).0
  unfolding create_task start_execution
  world-create_task id task = ground arith

  accept-Change :
      (id channel_id target_id content : String) (metadata : Map String) (options : TaskOptions)
      → s.world.view ≡ s.world.memory.tasks
      → Change s.world (accept render s id channel_id target_id content metadata options).0.world
  unfolding accept
  accept-Change id channel_id target_id content metadata options fresh =
      let task = new_task channel_id target_id content metadata options in
      get_cases (Refines s) _ _ _ (get-shared s shared id)
        (λ absent. Change.create id task (ap (lookup id) (sym fresh) ∙ absent) (
          world-create_task id task
          ∙ ap (λ r. r.0)
              (create_with_audit-shared s shared id task
                (audit_event id "created" "" task.state ""))))
        λ _ _. Change.keep refl

  pub ingest_inbound-Change :
      (r : Option IngestInboundRequest)
      → s.world.view ≡ s.world.memory.tasks
      → Change s.world (ingest_inbound render s r).0.world
  unfolding ingest_inbound
  ingest_inbound-Change none fresh = Change.keep refl
  ingest_inbound-Change (some r) fresh =
      if_cases (Refines s) (blank r.channel_id || blank r.target_id || blank r.content)
        (λ _. Change.keep refl)
        λ _. accept-Change _ r.channel_id r.target_id r.content r.metadata _ fresh

  pub dispatch_task-Change :
      (r : Option DispatchTaskRequest)
      → s.world.view ≡ s.world.memory.tasks
      → Change s.world (dispatch_task render s r).0.world
  unfolding dispatch_task
  dispatch_task-Change none fresh = Change.keep refl
  dispatch_task-Change (some r) fresh =
      if_cases (Refines s)
        (blank r.task_id || blank r.channel_id || blank r.target_id || blank r.content)
        (λ _. Change.keep refl)
        λ _. accept-Change r.task_id r.channel_id r.target_id r.content r.metadata _ fresh

module _ (s : Service Shared) (shared : IsShared s) where
  kept :
      (e : TaskEntry)
      → (e.task.require_approval && not e.task.approval_granted) ≡ true
      → (recover_entry s e).0.world ≡ s.world
  unfolding recover_entry
  kept e waiting = ground arith

  world-recover_entry :
      (e : TaskEntry)
      → (e.task.require_approval && not e.task.approval_granted) ≡ false
      → (recover_entry s e).0.world
        ≡ (transition_with_audit s e.id e.task.state
            (record e.task { state = "queued" })
            (audit_event e.id "recovered" e.task.state "queued" recovered_reason)).0
  unfolding recover_entry start_execution
  world-recover_entry e free = ground arith

  -- One round of the recovery, for an entry that was listed.
  pub recover_entry-Change :
      (e : TaskEntry)
      → lookup e.id s.world.view ≡ some e.task
      → (e.task.state ≡ "queued") ⊎ (e.task.state ≡ "running")
      → Change s.world (recover_entry s e).0.world
  recover_entry-Change e found live =
      elim (Bool-cases (e.task.require_approval && not e.task.approval_granted)) [
        | inl waiting ↦ Change.keep (kept e waiting)
        | inr free ↦ subst (Change s.world) (sym (world-recover_entry e free)) (
            transition-Change s shared e.id "recovered" recovered_reason e.task.state e.task _ found
              refl (Allowed.recovered free live refl))
      ]
