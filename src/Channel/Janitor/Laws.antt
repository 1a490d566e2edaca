-- ===== src/Channel/Janitor/Laws.antt =====
-- The janitor of internal/infrastructure/persistence/memory/channel/start.go and the idempotency of
-- send.go, typing actions of stop_typing.go.
use keelmesh.Prelude.{
  ℕ, ◌≤◌, String, Map, ◌≡◌, refl, lookup, Option, none, some, [], ◌∷◌, eq_iff, lookup-delete,
  if◌then◌else◌, arith, Option-cases, inl, inr,
}
use keelmesh.Channel.Repository.{Repository, IdempotencyEntry, half_hour}
use keelmesh.Channel.Send.{previous}
use keelmesh.Channel.Janitor.{keep, is_old, sweep}

-- An entry that is there and not old.
abbrev young : {A : Type 0} → (A → ℕ) → ℕ → ℕ → Option A → Option A
young created_at limit now none = none
young created_at limit now (some entry) =
    if is_old limit now (created_at entry) then none else some entry

module _ {A : Type 0} (created_at : A → ℕ) (limit now : ℕ) where
  lookup-keep :
      (key : String) (m : Map A)
      → lookup key (keep created_at limit now m) ≡ young created_at limit now (lookup key m)
  unfolding lookup keep
  lookup-keep key [] = refl
  lookup-keep key ((here, entry) ∷ rest) =
      let later = lookup-keep key rest in
      ground
        (arith, later, eq_iff here key, lookup-delete here key (keep created_at limit now rest))

module _ {P : Type 0} (r : Repository P) (now : ℕ) where
  -- The janitor does not change what `Send` finds: whatever a round takes out, from then on the
  -- search for an earlier message with a key has the same answer as without the round.
  pub previous-sweep :
      (key : String) (later : ℕ)
      → now ≤ later
      → previous (sweep r now) key later ≡ previous r key later
  unfolding previous sweep
  previous-sweep key later after =
      let left =
        lookup-keep (λ (entry : IdempotencyEntry). entry.created_at) half_hour now key
          r.idempotency in
      elim (Option-cases (lookup key r.idempotency)) [
        | inl missing ↦ ground (arith, left, missing)
        | inr (entry, found) ↦ ground (arith, left, found, after)
      ]
