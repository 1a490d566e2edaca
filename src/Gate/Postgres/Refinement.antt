-- ===== src/Gate/Postgres/Refinement.antt =====
-- internal/application/gate/postgres_repository.go against repository.go and audit.go: an audited
-- transition of the database, and the same transition of the memory stores.
use keelmesh.Prelude.{
  ℕ, String, Bool, true, false, not, ◌≡◌, inl, inr, refl, sym, ap, ◌∙◌, subst, Option, none, some,
  ◌==◌, if_cases, option_cases, result_cases, read_cases, Option-cases, [], lookup, eq_iff, ok,
  Error, arith,
}
use keelmesh.Gate.Types.{TaskRecord, AuditEvent}
use keelmesh.Gate.Memory.{Outside, Memory}
use keelmesh.Gate.Service.{plain_event}
use keelmesh.Gate.Local.{stored, logged, local_transition}
use keelmesh.Gate.Postgres.{
  Codec, Sql, row_of, dated, wrapped, answered, finish_tx, write_transition, transition_locked,
  transition_and_audit, insert_audit_tx, enqueue_in_tx,
}
use keelmesh.Gate.Postgres.Laws.{SqlLaws, Shows}
use keelmesh.Gate.Postgres.Written.{wrapped_ok, and_then_ok, state_of?, Holds-state, written}

module _ {W : Type 0} {sql : Sql W} (codec : Codec) (laws : SqlLaws W sql) (uuid : String) (now : ℕ)
    (o : Outside) (w : W) (m : Memory) (shows : Shows codec laws w m) (id : String)
    (task : TaskRecord) (event : AuditEvent) where
  -- The two answers agree: whether the transition was applied, and what is stored then.
  abbrev pub Agree : W × Bool × Option Error → Memory × Bool × Option Error → Type 0
  Agree res res' = (res.1 ≡ res'.1) × Shows codec laws res.0 res'.0

  abbrev Agrees : String → W × Bool × Option Error → Type 0
  Agrees expected res = res.2 ≡ none → Agree res (local_transition o m id expected task event)

  commit_answered :
      (tx : W) (commit_text : String) (res : W × Option Error)
      → (res.1 ≡ none → res.0 ≡ tx)
      → (answered (wrapped commit_text [] res)).2 ≡ none
      → ((answered (wrapped commit_text [] res)).1 ≡ true)
        × ((answered (wrapped commit_text [] res)).0 ≡ tx)
  commit_answered tx commit_text (w', none) done e = (refl, done refl)
  commit_answered tx commit_text (w', some failure) done e = absurd (ground (arith, e))

  finish_answered :
      (commit_text : String) (res : W × Option Error)
      → (answered (finish_tx codec sql uuid now w res commit_text)).2 ≡ none
      → (tx : W) × (res ≡ (tx, none))
        × ((answered (finish_tx codec sql uuid now w res commit_text)).1 ≡ true)
        × ((answered (finish_tx codec sql uuid now w res commit_text)).0 ≡ tx)
  finish_answered commit_text (tx, none) e =
      let (applied, same) =
        commit_answered tx commit_text (sql.commit w tx) (laws.commit_ok w tx) e in
      (tx, refl, applied, same)
  finish_answered commit_text (tx, some failure) e = absurd (ground (arith, e))

  -- Without a delivery, the writes of a transition that succeed are the two statements.
  write_ok :
      (text : String) (tx : W)
      → write_transition codec sql uuid now w id (row_of text task) event none ≡ (tx, none)
      → let updated = sql.update_task w id (row_of text task) in
        (updated.1 ≡ none)
        × ((sql.insert_audit updated.0 (dated uuid now event)).1 ≡ none)
        × ((sql.insert_audit updated.0 (dated uuid now event)).0 ≡ tx)
  unfolding write_transition insert_audit_tx
  write_ok text tx e =
      let updated = sql.update_task w id (row_of text task) in
      let (mid, first, last) = and_then_ok _ (enqueue_in_tx codec sql uuid now none) tx e in
      let (u, one, two) =
        and_then_ok (wrapped "gatecore: write audited transition: %w" [] updated) _ mid first in
      let (fine, same) = wrapped_ok "gatecore: write audited transition: %w" [] updated u one in
      let two' =
        subst (λ v. insert_audit_tx codec sql uuid now v event ≡ (mid, none)) (sym same) two in
      let (fine', same') =
        wrapped_ok "gatecore: insert audit in task transaction: %w" []
          (sql.insert_audit updated.0 (dated uuid now event)) mid two' in
      (fine, fine', same' ∙ ap (λ r. r.0) last)

  local_applied :
      (expected : String) (old : TaskRecord)
      → lookup id m.tasks ≡ some old
      → old.state ≡ expected
      → local_transition o m id expected task event
        ≡ (logged o (stored m id task) (plain_event event), true, none)
  unfolding local_transition
  local_applied expected old found same = ground (arith, found, same, eq_iff old.state expected)

  local_refused :
      (expected : String) (old : TaskRecord)
      → lookup id m.tasks ≡ some old
      → (old.state == expected) ≡ false
      → local_transition o m id expected task event ≡ (m, false, none)
  unfolding local_transition
  local_refused expected old found other = ground (arith, found, other)

  local_missing :
      (expected : String)
      → lookup id m.tasks ≡ none
      → local_transition o m id expected task event ≡ (m, false, none)
  unfolding local_transition
  local_missing expected missing = ground (arith, missing)

  -- What the selected state says of the stored task.
  selected :
      (state : Option String)
      → sql.select_state w id ≡ ok state
      → state ≡ state_of? (lookup id m.tasks)
  selected state e =
      laws.select_state_ok w id state e
      ∙ Holds-state codec (laws.row w id) (lookup id m.tasks) (shows.rows id)

  selected_none : sql.select_state w id ≡ ok none → lookup id m.tasks ≡ none
  selected_none e = elim (Option-cases (lookup id m.tasks)) [
    | inl missing ↦ missing
    | inr (old, found) ↦ absurd (ground (arith, selected none e, found))
  ]

  selected_some :
      (state : String)
      → sql.select_state w id ≡ ok (some state)
      → (old : TaskRecord) × (lookup id m.tasks ≡ some old) × (old.state ≡ state)
  selected_some state e = elim (Option-cases (lookup id m.tasks)) [
    | inl missing ↦ absurd (ground (arith, selected (some state) e, missing))
    | inr (old, found) ↦ (old, found, ground (arith, selected (some state) e, found))
  ]

  applied-Agrees :
      (text expected : String) (old : TaskRecord)
      → codec.marshal task.metadata ≡ ok text
      → lookup id m.tasks ≡ some old
      → old.state ≡ expected
      → Agrees expected (
          answered (
            finish_tx codec sql uuid now w
              (write_transition codec sql uuid now w id (row_of text task) event none)
              "gatecore: commit audited transition: %w"))
  applied-Agrees text expected old encoded found same e =
      let res = write_transition codec sql uuid now w id (row_of text task) event none in
      let (tx, wrote, applied, left) =
        finish_answered "gatecore: commit audited transition: %w" res e in
      let (updated, inserted, end) = write_ok text tx wrote in
      let shown =
        written codec laws uuid now o w m shows id task event text encoded old found updated
          inserted in
      let local = local_applied expected old found same in
      (
        applied ∙ sym (ap (λ r. r.1) local),
        subst (λ n. Shows codec laws n (local_transition o m id expected task event).0)
            (end ∙ sym left) (subst (Shows codec laws _) (sym (ap (λ r. r.0) local)) shown),
      )

  refused-Agrees :
      (expected : String)
      → local_transition o m id expected task event ≡ (m, false, none)
      → Agrees expected (w, false, none)
  refused-Agrees expected local e =
      (sym (ap (λ r. r.1) local), subst (Shows codec laws w) (sym (ap (λ r. r.0) local)) shows)

  locked-Agrees :
      (text expected : String)
      → codec.marshal task.metadata ≡ ok text
      → Agrees expected
          (transition_locked codec sql uuid now w id expected (row_of text task) event none)
  unfolding transition_locked
  locked-Agrees text expected encoded =
      read_cases (Agrees expected) (sql.select_state w id) (λ _ _ e. absurd (ground (arith, e)))
        (λ read. refused-Agrees expected (local_missing expected (selected_none read)))
        λ state read.
          let (old, found, same) = selected_some state read in
          if_cases (Agrees expected) (not (state == expected))
            (λ other.
              refused-Agrees expected
                (local_refused expected old found (ground (arith, other, same))))
            λ equal.
              applied-Agrees text expected old encoded found
                (same ∙ (eq_iff state expected).0 (ground (arith, equal)))

  -- The Postgres repository implements the memory stores: where the database shows what the memory
  -- stores, and the statements have their documented effect, then an audited transition without a
  -- delivery that reports no error answers as the transition of the memory does, and afterwards the
  -- database shows what the memory stores then: the same records, and the same audit trails but for
  -- the events' ids and dates.
  pub transition_and_audit-Agrees :
      (expected : String)
      → (transition_and_audit codec sql uuid now w id expected task event none).2 ≡ none
      → Agree
          (transition_and_audit codec sql uuid now w id expected task event none)
          (local_transition o m id expected task event)
  unfolding transition_and_audit
  transition_and_audit-Agrees expected =
      result_cases (Agrees expected) (codec.marshal task.metadata)
        (λ _ _ e. absurd (ground (arith, e)))
        λ text encoded.
          option_cases (Agrees expected) (sql.begin w)
            (λ _.
              option_cases (Agrees expected) (sql.lock w id)
                (λ _. locked-Agrees text expected encoded) λ _ _ e. absurd (ground (arith, e)))
            λ _ _ e. absurd (ground (arith, e))
