-- ===== src/Channel/Status/Laws.antt =====
-- What RuntimeStatus of internal/infrastructure/persistence/memory/channel/status.go says of the
-- channels.
use keelmesh.Prelude.{
  ℕ, String, true, not, ◌≡◌, ◌↔◌, refl, List, [], ◌∷◌, All, arith, if_cases, Bool-cases, inl, inr,
  ◌<◌,
}
use keelmesh.Channel.Types.{Channel}
use keelmesh.Channel.Repository.{Repository}
use keelmesh.Channel.Lifecycle.{all_channels}
use keelmesh.Channel.Status.{Tally, count, judge, no_tally, runtime_status, tally}

module _ {P : Type 0} (p : P) where
  -- A channel that is enabled runs.
  abbrev pub Runs : Channel P → Type 0
  Runs c = c.definition.enabled ≡ true → c.running p ≡ true

  -- A gap stays.
  count-< :
      (cs : List (Channel P)) (t : Tally)
      → t.running < t.enabled
      → (count p cs t).running < (count p cs t).enabled
  unfolding count tally
  count-< [] t h = h
  count-< (c ∷ cs) t h =
      if_cases (λ (u : Tally). u.running < u.enabled) (not c.definition.enabled)
        (λ _. count-< cs t h) λ _. count-< cs (tally p c t) (ground (arith, h))

  -- The two counts are the same exactly where every enabled channel runs.
  count-≡ :
      (cs : List (Channel P)) (t : Tally)
      → t.running ≡ t.enabled
      → ((count p cs t).running ≡ (count p cs t).enabled) ↔ All Runs cs
  unfolding count tally
  count-≡ [] t h = (λ _. tt, λ _. h)
  count-≡ (c ∷ cs) t h =
      if_cases (λ (u : Tally). u.running ≡ u.enabled ↔ All Runs (c ∷ cs)) (not c.definition.enabled)
        (λ off.
          let (to, from) = count-≡ cs t h in
          (λ e. (λ on. absurd (ground (arith, off, on)), to e), λ all. from all.1))
        λ on. elim (Bool-cases (c.running p)) [
          | inl runs ↦
              let (to, from) = count-≡ cs (tally p c t) (ground (arith, h, runs)) in
              (λ e. (λ _. runs, to e), λ all. from all.1)
          | inr idle ↦
              let gap = count-< cs (tally p c t) (ground (arith, h, idle)) in
              (
                λ e. absurd (ground (arith, gap, e)),
                λ all. absurd (ground (arith, all.0 (ground (arith, on)), idle)),
              )
        ]

judge_ready : (enabled running : ℕ) → (judge enabled running).1 ≡ true → running ≡ enabled
unfolding judge
judge_ready enabled running h = ground (arith, h)

judge_equal : (enabled running : ℕ) → running ≡ enabled → (judge enabled running).1 ≡ true
unfolding judge
judge_equal enabled running h = ground (arith, h)

-- The runtime reports that it is ready exactly where every enabled channel runs.
pub runtime_status-ready_iff :
    {P : Type 0} (sort : List String → List String) (r : Repository P)
    → (runtime_status sort r).ready ≡ true ↔ All (Runs r.platform) (all_channels r.registry)
unfolding runtime_status
runtime_status-ready_iff sort r =
    let (to, from) = count-≡ r.platform (all_channels r.registry) no_tally refl in
    let t = count r.platform (all_channels r.registry) no_tally in
    (λ h. to (judge_ready t.enabled t.running h), λ all. judge_equal t.enabled t.running (from all))
