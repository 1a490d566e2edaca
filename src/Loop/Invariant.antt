-- ===== src/Loop/Invariant.antt =====
-- What holds of every stored run of internal/application/loop/service.go.
use keelmesh.Prelude.{
  ℕ, zero, suc, ◌<◌, String, Bool, true, false, ◌||◌, ◌&&◌, not, ◌≡◌, refl, ap, subst, some, List,
  [], ◌∷◌, map, get_elem?, set, any, All, ◌==◌, eq_iff, eq_refl, if_cases, option_cases, pos_part,
  ◌≤ℤ◌, Result, ok, arith,
}
use keelmesh.Loop.Types.{Step, Run, AdvanceStepRequest, is_terminal}
use keelmesh.Loop.Service.{
  index_of, supported, over_limit, fail_iteration, report_step, to_next, report, advance,
}

abbrev pub ids : List Step → List String
ids = map (λ s. s.id)

abbrev pub has : String → List String → Bool
has id = any (λ x. x == id)

-- A step that has a limit has not passed it.
abbrev pub WithinLimit : Step → Type 0
WithinLimit s = 0 < pos_part s.max_iterations → s.iteration ≤ℤ s.max_iterations

abbrev pub explains : String → Step → Bool
explains error s = s.state == "failed" && s.error == error

pub record IsValid (run : Run) : Type 0 where
  pub known : (run.state == "running" || is_terminal run.state) ≡ true
  pub limits : All WithinLimit run.steps
  pub current : run.state ≡ "running" → has run.current_step_id (ids run.steps) ≡ true
  pub ended : run.state ≡ "final" → run.current_step_id ≡ ""
  pub failure : run.state ≡ "failed" → any (explains run.error) run.steps ≡ true

ids-set :
    (xs : List Step) (i : ℕ) (s v : Step)
    → get_elem? xs i ≡ some s
    → v.id ≡ s.id
    → ids (set xs i v) ≡ ids xs
ids-set [] i s v e f = refl
ids-set (x ∷ xs) zero s v e f = cc
ids-set (x ∷ xs) (suc i) s v e f = ap (◌∷◌ x.id) (ids-set xs i s v e f)

has-get_elem? :
    (xs : List Step) (i : ℕ) (s : Step) → get_elem? xs i ≡ some s → has s.id (ids xs) ≡ true
has-get_elem? [] i s e = cc
has-get_elem? (x ∷ xs) zero s e = ground (arith, eq_iff x.id s.id)
has-get_elem? (x ∷ xs) (suc i) s e = ground (arith, has-get_elem? xs i s e)

any-set :
    (p : Step → Bool) (xs : List Step) (i : ℕ) (s v : Step)
    → get_elem? xs i ≡ some s
    → p v ≡ true
    → any p (set xs i v) ≡ true
any-set p [] i s v e h = cc
any-set p (x ∷ xs) zero s v e h = ground arith
any-set p (x ∷ xs) (suc i) s v e h = ground (arith, any-set p xs i s v e h)

All-set :
    (P : Step → Type 0) (xs : List Step) (i : ℕ) (v : Step) → All P xs → P v → All P (set xs i v)
All-set P [] i v h p = tt
All-set P (x ∷ xs) zero v h p = (p, h.1)
All-set P (x ∷ xs) (suc i) v h p = (h.0, All-set P xs i v h.1 p)

All-get_elem? :
    (P : Step → Type 0) (xs : List Step) (i : ℕ) (s : Step)
    → All P xs
    → get_elem? xs i ≡ some s
    → P s
All-get_elem? P [] i s h e = absurd (cc)
All-get_elem? P (x ∷ xs) zero s h e = subst P (ground arith) h.0
All-get_elem? P (x ∷ xs) (suc i) s h e = All-get_elem? P xs i s h.1 e

module _ (r : AdvanceStepRequest) (run : Run) (i : ℕ) (s : Step) where
  fail_iteration-IsValid :
      IsValid run → get_elem? run.steps i ≡ some s → IsValid (fail_iteration r run i s)
  unfolding fail_iteration
  fail_iteration-IsValid v e =
      let bad : Step = record s { state = "failed"; error = "maximum iterations exceeded" } in
      record {
        known = refl;
        limits =
            All-set WithinLimit run.steps i bad v.limits
              (All-get_elem? WithinLimit run.steps i s v.limits e);
        current = λ c. absurd (ground (arith, eq_iff "failed" "running"));
        ended = λ c. absurd (ground (arith, eq_iff "failed" "final"));
        failure = λ _. any-set (explains "maximum iterations exceeded") run.steps i s bad e refl;
      }

  report_limits :
      IsValid run → over_limit r s ≡ false → All WithinLimit (set run.steps i (report_step r s))
  report_limits v o = All-set WithinLimit run.steps i (report_step r s) v.limits (λ l. ground arith)

  to_next-IsValid :
      (out : Run) → out.state ≡ "running" → All WithinLimit out.steps → IsValid (to_next out i)
  unfolding to_next
  to_next-IsValid out running limits =
      option_cases IsValid (get_elem? out.steps (suc i))
        (λ _. record {
          known = refl;
          limits = limits;
          current = λ c. absurd (ground (arith, eq_iff "final" "running"));
          ended = λ _. refl;
          failure = λ c. absurd (ground (arith, eq_iff "final" "failed"));
        })
        λ next e.
          let runs : Step = record next { state = "running" } in
          record {
            known = ground (arith, eq_iff out.state "running");
            limits =
                All-set WithinLimit out.steps (suc i) runs limits
                  (All-get_elem? WithinLimit out.steps (suc i) next limits e);
            current = λ _.
                rw (ids-set out.steps (suc i) next runs e refl)
                  (has-get_elem? out.steps (suc i) next e);
            ended = λ c. absurd (ground (arith, eq_iff "running" "final"));
            failure = λ c. absurd (ground (arith, eq_iff "running" "failed"));
          }

  report-IsValid :
      IsValid run
      → run.state ≡ "running"
      → get_elem? run.steps i ≡ some s
      → over_limit r s ≡ false
      → IsValid (report r run i s)
  unfolding report
  report-IsValid v running e under =
      let limits = report_limits v under in
      if_cases IsValid (r.state == "failed")
        (λ failed. record {
          known = refl;
          limits = limits;
          current = λ c. absurd (ground (arith, eq_iff "failed" "running"));
          ended = λ c. absurd (ground (arith, eq_iff "failed" "final"));
          failure = λ _.
              any-set (explains r.error) run.steps i s (report_step r s) e
                (ground (arith, eq_refl r.error));
        })
        λ _.
          if_cases IsValid (r.state == "final")
            (λ _.
              to_next-IsValid
                (record run {
                  iteration = r.iteration;
                  output = r.output;
                  steps = set run.steps i (report_step r s);
                })
                running limits)
            λ _. record {
              known = v.known;
              limits = limits;
              current = λ c. rw (ids-set run.steps i s (report_step r s) e refl) (v.current c);
              ended = λ c. absurd (ground (arith, eq_iff "running" "final"));
              failure = λ c. absurd (ground (arith, eq_iff "running" "failed"));
            }

-- A running run from its two state tests.
pub running_of : (run : Run) → IsValid run → is_terminal run.state ≡ false → run.state ≡ "running"
running_of run v live = ground (arith, v.known, eq_iff run.state "running")

pub advance-IsValid :
    (r : AdvanceStepRequest) (run run' : Run) (over : Bool)
    → IsValid run
    → run.state ≡ "running"
    → advance r run ≡ ok (run', over)
    → IsValid run'
unfolding advance
advance-IsValid r run run' over v running =
    option_cases Leads (index_of r.step_id run.steps) (λ _ h. cc)
      λ i _.
        option_cases Leads (get_elem? run.steps i) (λ _ h. cc)
          λ s e.
            if_cases Leads (not (supported r.state)) (λ _ h. cc)
              λ _.
                if_cases Leads (over_limit r s)
                  (λ _ h. subst IsValid (ground arith) (fail_iteration-IsValid r run i s v e))
                  λ under h.
                    subst IsValid (ground arith) (report-IsValid r run i s v running e under)
  where
    Leads : Result (Run × Bool) → Type 0
    Leads res = res ≡ ok (run', over) → IsValid run'
