-- ===== src/Channel/Split.antt =====
-- internal/infrastructure/persistence/memory/channel/start.go: the split of a long text into chunks.
pub mod Laws
use Prim.Native.Char.{Char, code}
use Prim.Native.String
use keelmesh.Prelude.{
  ℕ, zero, suc, ◌+◌, ◌-◌, ◌/◌, ◌≤◌, ◌<◌, String, Bool, true, false, ◌&&◌, ◌||◌, ◌≡◌, ◌≢◌, refl, ap,
  Option, none, some, List, [], ◌∷◌, ◌++◌, map, length, take, drop, get_elem?, eqb, leb, ltb, ◌==◌,
  if◌then◌else◌, if_cases, arith, All, length-take-le, take-drop, length-drop, Bool-cases,
}
use keelmesh.Channel.Types.{Outbound}

-- `[]rune(s)` and `string(runes)`.
unfoldable pub runes : String → List Char
runes String.[] = []
runes (String.◌∷◌ c s) = c ∷ runes s

unfoldable pub text : List Char → String
text [] = String.[]
text (c ∷ cs) = String.◌∷◌ c (text cs)

unfoldable pub max_message_length : String → ℕ
max_message_length kind =
    if kind == "telegram"
    then 4000
    else if kind == "dingtalk"
    then 20000
    else if kind == "wecom" || kind == "wecom_app" || kind == "wecom_aibot"
    then 2048
    else 0

-- The characters after which a chunk may end, and those that a later chunk does not begin with.
abbrev pub is_break : Char → Bool
is_break c = eqb (code c) 10 || eqb (code c) 32 || eqb (code c) 9

abbrev pub is_skipped : Char → Bool
is_skipped c = eqb (code c) 32 || eqb (code c) 9 || eqb (code c) 10 || eqb (code c) 13

abbrev pub breaks_at : List Char → ℕ → Bool
breaks_at cs i = elim (get_elem? cs i) [ none ↦ false | some c ↦ is_break c ]

-- The search of a break, down from `end`; one that stands less than a quarter of the limit before
-- `end` is passed over.
unfoldable pub find_break : List Char → ℕ → ℕ → ℕ → ℕ
find_break cs limit end zero = end
find_break cs limit end (suc i) =
    let rest = find_break cs limit end i in
    if breaks_at cs i && leb (limit / 4) (end - suc i) then suc i else rest

-- `end` of one round of the loop.
unfoldable pub chunk_end : List Char → ℕ → ℕ
unfolding find_break
chunk_end cs limit = if ltb limit (length cs) then find_break cs limit limit limit else length cs

unfoldable pub skip_spaces : List Char → List Char
skip_spaces [] = []
skip_spaces (c ∷ cs) = let rest = skip_spaces cs in if is_skipped c then rest else c ∷ cs

-- The loop, on fuel; the length of the text is enough of it.
unfoldable pub split_runes : ℕ → ℕ → List Char → List (List Char)
unfolding chunk_end skip_spaces
split_runes fuel limit [] = []
split_runes zero limit (c ∷ cs) = []
split_runes (suc fuel) limit (c ∷ cs) =
    let end = chunk_end (c ∷ cs) limit in
    take end (c ∷ cs) ∷ split_runes fuel limit (skip_spaces (drop end (c ∷ cs)))

unfoldable pub split_outbound : Outbound → ℕ → List Outbound
unfolding split_runes runes text
split_outbound message limit =
    let cs = runes message.content in
    if eqb limit 0 || leb (length cs) limit
    then message ∷ []
    else map (λ chunk. record message { content = text chunk }) (split_runes (length cs) limit cs)
