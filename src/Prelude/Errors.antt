-- ===== src/Prelude/Errors.antt =====
-- Go's `error` values. How `fmt` renders one is left to a parameter of the code that asks for it.
use Prim.Native.String.{String}
use mathlib.Core.Path.{◌≡◌, refl}
use mathlib.Core.Logic.{◌⊎◌, inl, inr}
use mathlib.Core.Bool.{Bool, true, false, ◌||◌}
use mathlib.Core.Option.{Option, none, some}
use mathlib.Core.List.{List}
use text.Mathlib.Text.{◌==◌}

-- `errors.New`, `fmt.Errorf` without and with a `%w` (the format, its other arguments and the
-- wrapped error), and `errors.Join`.
pub data Error : Type 0 where
  new : String → Error
  errorf : String → List String → Error
  wrap : String → List String → Error → Error
  join : Error → Error → Error

-- `errors.Is(e, errors.New(text))`: the sentinels of this repository differ in their texts.
unfoldable pub is : Error → String → Bool
is (new s) text = s == text
is (errorf f args) text = false
is (wrap f args e) text = is e text
is (join a b) text = is a text || is b text

pub data Result {ℓ} (A : Type ℓ) : Type ℓ where
  ok : A → Result A
  err : Error → Result A

abbrev pub is_ok {ℓ} : {A : Type ℓ} → Result A → Bool
is_ok (ok a) = true
is_ok (err e) = false

infixl 5 ◌>>=◌
abbrev pub ◌>>=◌ {ℓ κ} : {A : Type ℓ} {B : Type κ} → Result A → (A → Result B) → Result B
ok a >>= f = f a
err e >>= f = err e

pub Result-cases {ℓ} :
    {A : Type ℓ} (r : Result A) → ((e : Error) × (r ≡ err e)) ⊎ ((a : A) × (r ≡ ok a))
Result-cases (err e) = inl (e, refl)
Result-cases (ok a) = inr (a, refl)

-- To prove a property of what follows a read, prove it of each case of the read.
pub read_cases {ℓ κ μ} :
    {A : Type ℓ} {B : Type κ} (P : B → Type μ) (r : Result (Option A)) {on_err : Error → B}
    {on_none : B} {on_some : A → B}
    → ((e : Error) → r ≡ err e → P (on_err e))
    → (r ≡ ok none → P on_none)
    → ((a : A) → r ≡ ok (some a) → P (on_some a))
    → P (elim r [ err e ↦ on_err e | ok none ↦ on_none | ok (some a) ↦ on_some a ])
read_cases P (err e) p q h = p e refl
read_cases P (ok none) p q h = q refl
read_cases P (ok (some a)) p q h = h a refl

pub result_cases {ℓ κ μ} :
    {A : Type ℓ} {B : Type κ} (P : B → Type μ) (r : Result A) {on_err : Error → B} {on_ok : A → B}
    → ((e : Error) → r ≡ err e → P (on_err e))
    → ((a : A) → r ≡ ok a → P (on_ok a))
    → P (elim r [ err e ↦ on_err e | ok a ↦ on_ok a ])
result_cases P (err e) p h = p e refl
result_cases P (ok a) p h = h a refl

-- A bind that succeeds has two parts that succeed.
pub bind_ok {ℓ κ} :
    {A : Type ℓ} {B : Type κ} (m : Result A) (f : A → Result B) (b : B)
    → (m >>= f) ≡ ok b
    → (a : A) × (m ≡ ok a) × (f a ≡ ok b)
bind_ok (ok a) f b h = (a, refl, h)
bind_ok (err e) f b h = cc
