-- ===== src/Gate/Refinement.antt =====
-- The parts that the handlers of internal/application/gate/service.go share, as steps of `Change`:
-- the read and the audited transition.
pub mod Handlers
pub mod Admission
pub mod Execution
use keelmesh.Prelude.{
  String, Bool, true, false, not, ◌||◌, ◌≡◌, refl, sym, ap, ◌∙◌, lookup, blank, Option, none, some,
  arith, ◌==◌, if◌then◌else◌, if_cases, read_cases, Error, subst, Bool-cases, Option-cases, eq_iff,
  Result, ok, err, pos, leb_ℤ, inl, inr,
}
use keelmesh.Gate.Types.{
  TaskRecord, AuditEvent, audit_event, is_terminal, DispatchResponse, TaskRequest,
  ProjectTaskEventRequest,
}
use keelmesh.Gate.Service.{Service, plain_event, transition_with_audit, start_execution}
use keelmesh.Gate.Handlers.{requeue, resume_task, approve_task}
use keelmesh.Gate.Shared.{Shared, IsShared, shared_transition, transition_with_audit-shared}
use keelmesh.Gate.Changes.{Allowed, Change}

shared_transition-Change :
    (w : Shared) (id action reason expected : String) (read task : TaskRecord)
    → lookup id w.view ≡ some read
    → read.state ≡ expected
    → Allowed read task
    → Change w
        (shared_transition w id expected task (audit_event id action expected task.state reason)).0
unfolding shared_transition
shared_transition-Change w id action reason expected read task seen from allowed =
    elim (Option-cases (lookup id w.memory.tasks)) [
      | inl e ↦ rw (e, shared_transition) (Change.keep refl)
      | inr (old, e) ↦
          rw (e, shared_transition)
            (if_cases (λ (r : Shared × Bool × Option _). Change w r.0) (old.state == expected)
              (λ t.
                let same = (eq_iff old.state expected).0 t in
                Change.move id action reason read old task seen e (same ∙ sym from) allowed
                  (rw from))
              (λ _. Change.keep refl))
    ]

pub transition-Change :
    (s : Service Shared)
    → IsShared s
    → (id action reason expected : String) (read task : TaskRecord)
    → lookup id s.world.view ≡ some read
    → read.state ≡ expected
    → Allowed read task
    → Change s.world
        (transition_with_audit s id expected task
          (audit_event id action expected task.state reason)).0
transition-Change s shared id action reason expected read task seen from allowed =
    rw
      (transition_with_audit-shared s shared id expected task
        (audit_event id action expected task.state reason))
      (shared_transition-Change s.world id action reason expected read task seen from allowed)

pub world-start_execution :
    (s : Service Shared) (id : String) (task : TaskRecord)
    → (start_execution s id task).world ≡ s.world
unfolding start_execution
world-start_execution s id task = ground arith

-- The world after a call is a step from the world before it.
abbrev pub Refines {ℓ} : {R : Type ℓ} → Service Shared → Service Shared × R → Type 0
Refines s res = Change s.world res.0.world

-- A read that cannot fail finds what is stored.
pub get_cases {ℓ κ} :
    {A : Type ℓ} (P : A → Type κ) (r : Result (Option TaskRecord)) (in_view? : Option TaskRecord)
    (on_err : Error → A) {on_none : A} {on_some : TaskRecord → A}
    → r ≡ ok in_view?
    → (in_view? ≡ none → P on_none)
    → ((task : TaskRecord) → in_view? ≡ some task → P (on_some task))
    → P (elim r [ err e ↦ on_err e | ok none ↦ on_none | ok (some task) ↦ on_some task ])
get_cases P r in_view? on_err read missing found =
    read_cases P r (λ e h. cc) (λ h. missing (cc)) (λ task h. found task (cc))
