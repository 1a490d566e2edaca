-- ===== src/Channel/Inbound/Laws.antt =====
-- The fan-out of internal/infrastructure/persistence/memory/channel/publish.go: who gets
-- a message, and what is dropped.
use keelmesh.Prelude.{
  ℕ, ◌+◌, ◌≤◌, ◌<◌, String, ◌≡◌, refl, List, [], ◌∷◌, ◌++◌, length, arith, ◌⊎◌, inl, inr, ◌↔◌, any,
  ◌==◌, true, not, ltb, Bool-cases, if_cases, eq_iff, is_empty, ◌||◌, ap,
}
use keelmesh.Channel.Types.{Inbound}
use keelmesh.Channel.Repository.{Subscription}
use keelmesh.Channel.Inbound.{capacity, wants, offer, offer_all}

-- One of the strings of a list.
abbrev pub IsIn : String → List String → Type 0
IsIn c [] = ⊥
IsIn c (d ∷ rest) = (d ≡ c) ⊎ IsIn c rest

-- A subscription that filters nothing, or filters for the channel of a message among others.
abbrev pub IsWanted : Subscription → Inbound → Type 0
IsWanted s m = (s.channels ≡ []) ⊎ IsIn m.channel_id s.channels

-- What a subscription comes to when a message is published, and the drops that it counts: one that
-- wants the message gets it behind what waits, or has 64 messages waiting; any other is left alone.
pub data IsServed (m : Inbound) (s : Subscription) : Subscription → ℕ → Type 0 where
  passed : (IsWanted s m → ⊥) → IsServed m s s 0
  taken :
      IsWanted s m → length s.queue < 64 → IsServed m s (record s { queue = s.queue ++ m ∷ [] }) 0
  dropped : IsWanted s m → 64 ≤ length s.queue → IsServed m s s 1

-- Every subscription keeps its number and is served, and the drops are added up.
abbrev pub AreServed : Inbound → List (ℕ × Subscription) → List (ℕ × Subscription) → ℕ → Type 0
AreServed m [] [] lost = lost ≡ 0
AreServed m ((id, s) ∷ rest) ((id', s') ∷ rest') lost =
    (id' ≡ id)
    × (own : ℕ) × IsServed m s s' own
    × (others : ℕ) × AreServed m rest rest' others
    × (lost ≡ own + others)
AreServed m _ _ lost = ⊥

any-IsIn : (c : String) (cs : List String) → any (λ d. d == c) cs ≡ true ↔ IsIn c cs
any-IsIn c [] = (λ e. absurd (ground arith), λ i. absurd i)
any-IsIn c (d ∷ cs) = (
  λ e. elim (Bool-cases (d == c)) [
    | inl hit ↦ inl ((eq_iff d c).0 hit)
    | inr miss ↦ inr ((any-IsIn c cs).0 (ground arith))
  ],
  λ i. elim i [
    | inl same ↦ ground (arith, (eq_iff d c).1 same)
    | inr later ↦ ground (arith, (any-IsIn c cs).1 later)
  ],
)

filter-IsIn :
    (c : String) (cs : List String)
    → (is_empty cs || any (λ d. d == c) cs) ≡ true ↔ (cs ≡ []) ⊎ IsIn c cs
filter-IsIn c [] = (λ _. inl refl, λ _. refl)
filter-IsIn c (d ∷ cs) = (
  λ e. inr ((any-IsIn c (d ∷ cs)).0 e),
  λ i. elim i [
    | inl none_left ↦ absurd (ground (arith, none_left, ap (λ xs. is_empty xs) none_left))
    | inr there ↦ (any-IsIn c (d ∷ cs)).1 there
  ],
)

wants-IsWanted : (s : Subscription) (m : Inbound) → wants s m.channel_id ≡ true ↔ IsWanted s m
wants-IsWanted s m = filter-IsIn m.channel_id s.channels

offer-IsServed : (s : Subscription) (m : Inbound) → IsServed m s (offer s m).0 (offer s m).1
unfolding offer
offer-IsServed s m =
    if_cases (λ (res : Subscription × ℕ). IsServed m s res.0 res.1) (not (wants s m.channel_id))
      (λ other.
        IsServed.passed λ wanted. absurd (ground (arith, other, (wants-IsWanted s m).1 wanted)))
      λ mine.
        let wanted = (wants-IsWanted s m).0 (ground (arith, mine)) in
        if_cases (λ (res : Subscription × ℕ). IsServed m s res.0 res.1)
          (ltb (length s.queue) capacity) (λ room. IsServed.taken wanted (ground (arith, room)))
          λ full. IsServed.dropped wanted (ground (arith, full))

-- A published message goes to every subscription that wants it, behind what waits there, unless 64
-- messages wait: then it is dropped and counted, once for each such subscription. A
-- subscription that filters for other channels is left alone, and nothing that waits is lost.
pub offer_all-AreServed :
    (subs : List (ℕ × Subscription)) (m : Inbound)
    → AreServed m subs (offer_all subs m).0 (offer_all subs m).1
unfolding offer_all
offer_all-AreServed [] m = refl
offer_all-AreServed ((id, s) ∷ rest) m =
    (refl, _, offer-IsServed s m, _, offer_all-AreServed rest m, refl)
