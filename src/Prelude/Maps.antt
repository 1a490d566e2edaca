-- ===== src/Prelude/Maps.antt =====
-- Go's `map[string]V` as an association list. The order of the list stands for one order in which
-- `range` may visit the entries.
use Prim.Native.String.{String}
use mathlib.Core.Path.{◌≡◌, refl}
use mathlib.Core.Logic.{◌≢◌}
use mathlib.Core.Option.{Option, none, some}
use mathlib.Core.List.{List, [], ◌∷◌}
use native.Mathlib.Omega.{arith}
use text.Mathlib.Text.{◌==◌}
use text.Mathlib.TextEquality.{eq_iff}
use text.Mathlib.TextPositions.{eq_refl}
use keelmesh.Prelude.Tests.{if◌then◌else◌}

abbrev pub Map {ℓ} : Type ℓ → Type ℓ
Map V = List (String × V)

module _ {ℓ} {V : Type ℓ} where
  -- `m[key]`, with Go's `ok`.
  unfoldable pub lookup : String → Map V → Option V
  lookup key [] = none
  lookup key ((here, value) ∷ rest) =
      let later = lookup key rest in if here == key then some value else later

  -- `delete(m, key)`.
  unfoldable pub delete : String → Map V → Map V
  delete key [] = []
  delete key ((here, value) ∷ rest) =
      let kept = delete key rest in if here == key then kept else (here, value) ∷ kept

  -- `m[key] = value`.
  unfoldable pub insert : String → V → Map V → Map V
  insert key value [] = (key, value) ∷ []
  insert key value ((here, old) ∷ rest) =
      let changed = insert key value rest in
      if here == key then (key, value) ∷ rest else (here, old) ∷ changed

  pub lookup-empty : (key : String) → lookup key [] ≡ none
  unfolding lookup
  lookup-empty key = refl

  pub lookup-delete :
      (gone key : String) (m : Map V)
      → lookup key (delete gone m) ≡ (if gone == key then none else lookup key m)
  unfolding lookup delete
  lookup-delete gone key [] = ground arith
  lookup-delete gone key ((here, value) ∷ rest) =
      ground
        (arith, eq_iff here gone, eq_iff here key, eq_iff gone key, lookup-delete gone key rest)

  pub lookup-insert :
      (new key : String) (value : V) (m : Map V)
      → lookup key (insert new value m) ≡ (if new == key then some value else lookup key m)
  unfolding lookup insert
  lookup-insert new key value [] = refl
  lookup-insert new key value ((here, old) ∷ rest) =
      let later = lookup-insert new key value rest in
      ground (arith, eq_iff here new, eq_iff here key, eq_iff new key, later)

  pub lookup-insert_self :
      (key : String) (value : V) (m : Map V) → lookup key (insert key value m) ≡ some value
  lookup-insert_self key value m = ground (arith, eq_refl key, lookup-insert key key value m)

  pub lookup-insert_ne :
      (new key : String) (value : V) (m : Map V)
      → new ≢ key
      → lookup key (insert new value m) ≡ lookup key m
  lookup-insert_ne new key value m apart =
      ground (arith, eq_iff new key, lookup-insert new key value m)

-- `m[key]` of strings, empty for a key that is not there.
abbrev pub value_at : String → Map String → String
value_at key m = elim (lookup key m) [ none ↦ "" | some value ↦ value ]

pub ruleset map_laws = (lookup-insert, lookup-delete)
