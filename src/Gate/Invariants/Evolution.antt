-- ===== src/Gate/Invariants/Evolution.antt =====
-- How one stored task of internal/application/gate develops over a step.
use keelmesh.Prelude.{
  String, Map, false, ◌≡◌, sym, ap, ◌∙◌, subst, lookup, lookup-insert, none, some, arith, ◌==◌,
  eq_iff, Bool-cases, inl, inr,
}
use keelmesh.Gate.Types.{TaskRecord}
use keelmesh.Gate.Shared.{Shared, stored}
use keelmesh.Gate.Changes.{Change, Note}
use keelmesh.Gate.Invariants.{SameTask, Allowed-SameTask, Allowed-live}

-- Every task of the first contents is in the second, as the same task.
abbrev pub Before : Map TaskRecord → Map TaskRecord → Type 0
Before tasks tasks' =
    (id : String) (old : TaskRecord)
    → lookup id tasks ≡ some old
    → (new : TaskRecord) × (lookup id tasks' ≡ some new) × SameTask old new

-- Every cancelled task of the first contents is in the second as it was.
abbrev pub KeepsCancelled : Map TaskRecord → Map TaskRecord → Type 0
KeepsCancelled tasks tasks' =
    (id : String) (old : TaskRecord)
    → lookup id tasks ≡ some old
    → old.state ≡ "cancelled"
    → lookup id tasks' ≡ some old

pub SameTask-refl : (task : TaskRecord) → SameTask task task
SameTask-refl task = ground arith

pub SameTask-trans :
    {first second third : TaskRecord}
    → SameTask first second
    → SameTask second third
    → SameTask first third
SameTask-trans a b = ground arith

-- Two records that are the same task as a third.
SameTask-join :
    {first second third : TaskRecord}
    → SameTask first second
    → SameTask first third
    → SameTask second third
SameTask-join a b = ground arith

pub Before-refl : (tasks : Map TaskRecord) → Before tasks tasks
Before-refl tasks id old found = (old, found, SameTask-refl old)

pub Before-trans :
    (first second third : Map TaskRecord)
    → Before first second
    → Before second third
    → Before first third
Before-trans first second third a b id old found =
    let (mid, found', same) = a id old found in
    let (new, found'', same') = b id mid found' in (new, found'', SameTask-trans same same')

-- The write of a record that comes of what the view has of the task.
module _ (w : Shared) (before : Before w.view w.memory.tasks) (id : String) (read new : TaskRecord)
    (seen : lookup id w.view ≡ some read) (same : SameTask read new) where
  stored-Before : Before w.memory.tasks (stored w id new).memory.tasks
  stored-Before j old found = elim (Bool-cases (id == j)) [
    | inl hit ↦
        let e = (eq_iff id j).0 hit in
        let (current, found', same') = before id read seen in
        let one : current ≡ old = ground (arith, ap (λ k. lookup k w.memory.tasks) e) in
        (
          new,
          ground (arith, lookup-insert id j new w.memory.tasks),
          subst (λ t. SameTask t new) one (SameTask-join same' same),
        )
    | inr miss ↦ (old, ground (arith, lookup-insert id j new w.memory.tasks), SameTask-refl old)
  ]

created-Before :
    (w : Shared) (id : String) (task : TaskRecord)
    → lookup id w.memory.tasks ≡ none
    → Before w.memory.tasks (stored w id task).memory.tasks
created-Before w id task absent j old found = (
  old,
  ground (
    arith,
    lookup-insert id j task w.memory.tasks,
    eq_iff id j,
    ap (λ k. lookup k w.memory.tasks),
  ),
  SameTask-refl old,
)

pub Change-Before :
    {w w' : Shared}
    → Change w w'
    → Before w.view w.memory.tasks
    → Before w.memory.tasks w'.memory.tasks
Change-Before {w} (Change.keep e) before =
    subst (λ v. Before w.memory.tasks v.memory.tasks) (sym e) (Before-refl w.memory.tasks)
Change-Before {w} (Change.create id task absent e) before =
    subst (λ v. Before w.memory.tasks v.memory.tasks) (sym e) (created-Before w id task absent)
Change-Before {w} (Change.move id action reason read old new seen found met a e) before =
    subst (λ v. Before w.memory.tasks v.memory.tasks) (sym e)
      (stored-Before w before id read new seen (Allowed-SameTask a))

pub Note-Before :
    {w w' : Shared}
    → Note w w'
    → Before w.view w.memory.tasks
    → Before w.memory.tasks w'.memory.tasks
Note-Before {w} (Note.skip e) before =
    subst (λ v. Before w.memory.tasks v.memory.tasks) (sym e) (Before-refl w.memory.tasks)
Note-Before {w} (Note.note id state content read seen live e) before =
    subst (λ v. Before w.memory.tasks v.memory.tasks) (sym e)
      (stored-Before w before id read (record read { progress_state = state; progress = content })
        seen (ground arith))

-- A write on a record that is not cancelled.
stored-KeepsCancelled :
    (w : Shared) (id : String) (current new : TaskRecord)
    → lookup id w.memory.tasks ≡ some current
    → (current.state == "cancelled") ≡ false
    → KeepsCancelled w.memory.tasks (stored w id new).memory.tasks
stored-KeepsCancelled w id current new found live j old found' gone = ground (
  arith,
  lookup-insert id j new w.memory.tasks,
  eq_iff id j,
  ap (λ k. lookup k w.memory.tasks),
  eq_iff old.state "cancelled",
  eq_iff current.state "cancelled",
)

pub Change-KeepsCancelled :
    {w w' : Shared} → Change w w' → KeepsCancelled w.memory.tasks w'.memory.tasks
Change-KeepsCancelled {w} (Change.keep e) =
    subst (λ v. KeepsCancelled w.memory.tasks v.memory.tasks) (sym e) λ id old found gone. found
Change-KeepsCancelled {w} (Change.create id task absent e) =
    subst (λ v. KeepsCancelled w.memory.tasks v.memory.tasks) (sym e)
      λ j old found gone. ground (
        arith,
        lookup-insert id j task w.memory.tasks,
        eq_iff id j,
        ap (λ k. lookup k w.memory.tasks),
      )
Change-KeepsCancelled {w} (Change.move id action reason read old new seen found met a e) =
    subst (λ v. KeepsCancelled w.memory.tasks v.memory.tasks) (sym e)
      (stored-KeepsCancelled w id old new found (ap (λ t. t == "cancelled") met ∙ Allowed-live a))

pub Note-KeepsCancelled :
    {w w' : Shared}
    → Note w w'
    → w.view ≡ w.memory.tasks
    → KeepsCancelled w.memory.tasks w'.memory.tasks
Note-KeepsCancelled {w} (Note.skip e) fresh =
    subst (λ v. KeepsCancelled w.memory.tasks v.memory.tasks) (sym e) λ id old found gone. found
Note-KeepsCancelled {w} (Note.note id state content read seen live e) fresh =
    subst (λ v. KeepsCancelled w.memory.tasks v.memory.tasks) (sym e)
      (stored-KeepsCancelled w id read (record read { progress_state = state; progress = content })
        (ap (lookup id) (sym fresh) ∙ seen) (ground arith))
