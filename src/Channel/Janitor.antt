-- ===== src/Channel/Janitor.antt =====
-- internal/infrastructure/persistence/memory/channel/start.go: a round of `runJanitor`, which is one
-- locked step and then the functions of what has gone. `now` is the ticker's time.
pub mod Laws
use keelmesh.Prelude.{ℕ, ◌-◌, Bool, Map, delete, List, [], ◌∷◌, leb, ltb, if◌then◌else◌}
use keelmesh.Channel.Repository.{
  Repository, ActionEntry, ReactionAction, LifecycleEntry, IdempotencyEntry, half_hour,
}

-- 5 minutes.
abbrev pub five_minutes : ℕ
five_minutes = 300000000000

-- `now.Sub(entry.createdAt) > limit`; a time that lies ahead is not old.
abbrev pub is_old : ℕ → ℕ → ℕ → Bool
is_old limit now created_at = ltb limit (now - created_at)

module _ {A : Type 0} (created_at : A → ℕ) (limit now : ℕ) where
  -- What a sweep of one map leaves, and what it takes out.
  unfoldable pub keep : Map A → Map A
  keep [] = []
  keep ((key, entry) ∷ rest) =
      let later = keep rest in
      if is_old limit now (created_at entry) then delete key later else (key, entry) ∷ later

  unfoldable pub gone : Map A → List A
  gone [] = []
  gone ((key, entry) ∷ rest) =
      let later = gone rest in if is_old limit now (created_at entry) then entry ∷ later else later

module _ {P : Type 0} where
  unfoldable pub stop_all : List (ActionEntry P) → P → P
  stop_all [] p = p
  stop_all (entry ∷ rest) p = stop_all rest (entry.stop p)

  unfoldable pub expire_all : List (ReactionAction P) → P → P
  expire_all [] p = p
  expire_all (entry ∷ rest) p = expire_all rest (entry.expire p)

  -- The round at a tick.
  unfoldable pub sweep : Repository P → ℕ → Repository P
  unfolding keep gone stop_all expire_all
  sweep r now =
      let action_time : ActionEntry P → ℕ = λ entry. entry.created_at in
      let reaction_time : ReactionAction P → ℕ = λ entry. entry.created_at in
      let lifecycle_time : LifecycleEntry → ℕ = λ entry. entry.created_at in
      let idempotency_time : IdempotencyEntry → ℕ = λ entry. entry.created_at in
      record r {
        actions = keep action_time five_minutes now r.actions;
        reactions = keep reaction_time half_hour now r.reactions;
        lifecycle = keep lifecycle_time half_hour now r.lifecycle;
        idempotency = keep idempotency_time half_hour now r.idempotency;
        platform =
            expire_all (gone reaction_time half_hour now r.reactions)
              (stop_all (gone action_time five_minutes now r.actions) r.platform);
      }
