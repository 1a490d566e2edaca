-- ===== src/Channel/Split/Laws.antt =====
-- What the split of a long text of internal/infrastructure/persistence/memory/channel/start.go keeps.
use Prim.Native.Char.{Char}
use keelmesh.Prelude.{
  ℕ, zero, suc, ◌≤◌, ◌<◌, List, [], ◌∷◌, ◌++◌, length, take, drop, if◌then◌else◌, arith, All,
  length-take-le,
}
use keelmesh.Channel.Split.{is_skipped, find_break, chunk_end, skip_spaces, split_runes}

find_break_bounds :
    (cs : List Char) (limit end i : ℕ)
    → 0 < end
    → i ≤ end
    → (0 < find_break cs limit end i) × (find_break cs limit end i ≤ end)
unfolding find_break
find_break_bounds cs limit end zero p q = (p, omega arith)
find_break_bounds cs limit end (suc i) p q =
    ground (arith, find_break_bounds cs limit end i p (omega arith))

chunk_end_bounds :
    (cs : List Char) (limit : ℕ)
    → 0 < limit
    → 0 < length cs
    → (0 < chunk_end cs limit) × (chunk_end cs limit ≤ limit)
unfolding chunk_end
chunk_end_bounds cs limit p q =
    ground (arith, find_break_bounds cs limit limit limit p (omega arith))

take-pos : (n : ℕ) (c : Char) (cs : List Char) → 0 < n → 0 < length (take n (c ∷ cs))
take-pos zero c cs p = p
take-pos (suc n) c cs p = omega arith

-- With a limit above 0, every chunk fits the limit and is not empty.
pub split_runes-fit :
    (fuel limit : ℕ) (cs : List Char)
    → 0 < limit
    → All (λ chunk. (0 < length chunk) × (length chunk ≤ limit)) (split_runes fuel limit cs)
unfolding split_runes
split_runes-fit fuel limit [] p = tt
split_runes-fit zero limit (c ∷ cs) p = tt
split_runes-fit (suc fuel) limit (c ∷ cs) p =
    let end = chunk_end (c ∷ cs) limit in
    let bounds = chunk_end_bounds (c ∷ cs) limit p (omega arith) in
    (
      (take-pos end c cs bounds.0, omega (arith, length-take-le end (c ∷ cs), bounds)),
      split_runes-fit fuel limit (skip_spaces (drop end (c ∷ cs))) p,
    )

-- The characters that are not skipped between chunks.
pub visible : List Char → List Char
visible [] = []
visible (c ∷ cs) = let rest = visible cs in if is_skipped c then rest else c ∷ rest

pub joined : List (List Char) → List Char
joined [] = []
joined (chunk ∷ rest) = chunk ++ joined rest
