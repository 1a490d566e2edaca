-- ===== src/Prelude/Text.antt =====
-- What the source uses of Go's `strings` and of `fmt`'s `%d`, over native texts.
use Prim.Native.Nat.{ℕ, zero, suc, ◌/◌, ◌%◌}
use Prim.Native.Char.{Char, code}
use Prim.Native.String.{String, [], ◌∷◌, ◌++◌}
use mathlib.Core.Path.{◌≡◌, refl}
use mathlib.Core.Bool.{Bool, ◌||◌, ◌&&◌}
use mathlib.Core.List.{List}
use text.Mathlib.Text.{◌==◌}
use keelmesh.Prelude.Tests.{eqb, leb, ltb, if◌then◌else◌}

-- `unicode.IsSpace`.
is_space : Char → Bool
is_space c =
    leb 9 (code c) && leb (code c) 13
    || eqb (code c) 32
    || eqb (code c) 0x85
    || eqb (code c) 0xA0
    || eqb (code c) 0x1680
    || leb 0x2000 (code c) && leb (code c) 0x200A
    || eqb (code c) 0x2028
    || eqb (code c) 0x2029
    || eqb (code c) 0x202F
    || eqb (code c) 0x205F
    || eqb (code c) 0x3000

trim_left : String → String
trim_left [] = []
trim_left (c ∷ s) = let rest = trim_left s in if is_space c then rest else c ∷ s

trim_right : String → String
trim_right [] = []
trim_right (c ∷ s) = let rest = trim_right s in if is_space c && rest == "" then "" else c ∷ rest

-- `strings.TrimSpace`.
unfoldable pub trim : String → String
unfolding is_space trim_left trim_right
trim s = trim_right (trim_left s)

-- `strings.TrimSpace(s) == ""`.
abbrev pub blank : String → Bool
blank s = trim s == ""

pub trim_empty : trim "" ≡ ""
unfolding trim
trim_empty = refl

-- Texts one after the other, as `fmt.Sprintf` joins its parts.
abbrev pub concat : List String → String
concat List.[] = ""
concat (List.◌∷◌ s r) = s ++ concat r

digit : ℕ → String
digit n =
    if eqb n 0
    then "0"
    else if eqb n 1
    then "1"
    else if eqb n 2
    then "2"
    else if eqb n 3
    then "3"
    else if eqb n 4
    then "4"
    else if eqb n 5
    then "5"
    else if eqb n 6
    then "6"
    else if eqb n 7
    then "7"
    else if eqb n 8
    then "8"
    else "9"

digits : ℕ → ℕ → String
digits zero n = digit n
digits (suc fuel) n =
    let more = digits fuel (n / 10) ++ digit (n % 10) in if ltb n 10 then digit n else more

-- `%d` of a number; a number has fewer decimal digits than its own value, so the fuel is enough.
unfoldable pub decimal : ℕ → String
unfolding digit digits
decimal n = digits n n
