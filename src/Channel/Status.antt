-- ===== src/Channel/Status.antt =====
-- internal/infrastructure/persistence/memory/channel: status.go and list.go. The library's sorting is
-- a parameter.
pub mod Laws
use keelmesh.Prelude.{
  ℕ, suc, ◌-◌, String, Bool, true, false, not, ◌||◌, ◌&&◌, Map, List, [], ◌∷◌, ◌++◌, map, eqb, ltb,
  ◌==◌, if◌then◌else◌,
}
use keelmesh.Channel.Types.{Channel, Definition}
use keelmesh.Channel.Repository.{Repository}
use keelmesh.Channel.Lifecycle.{all_channels}

-- `ops.RuntimeStatus`.
pub record RuntimeStatus : Type 0 where
  pub state : String
  pub ready : Bool
  pub degraded : Bool
  pub active : ℕ
  pub counters : List (String × ℕ)
  pub capabilities : List String

-- What the loop of `RuntimeStatus` has counted.
pub record Tally : Type 0 where
  pub enabled : ℕ
  pub running : ℕ
  pub capabilities : List String

unfoldable pub has : String → List String → Bool
has name [] = false
has name (x ∷ rest) = let later = has name rest in x == name || later

-- The set of the names that are not empty, and those before.
unfoldable pub collect : List String → List String → List String
unfolding has
collect [] set = set
collect (name ∷ rest) set =
    let set' = if name == "" || has name set then set else name ∷ set in collect rest set'

-- The counts with one more channel that is enabled.
unfoldable pub tally : {P : Type 0} → P → Channel P → Tally → Tally
unfolding collect
tally p c t = record {
  enabled = suc t.enabled;
  running = if c.running p then suc t.running else t.running;
  capabilities = collect c.definition.capabilities t.capabilities;
}

unfoldable pub count : {P : Type 0} → P → List (Channel P) → Tally → Tally
unfolding tally
count p [] t = t
count p (c ∷ rest) t =
    let skipped = count p rest t in
    let later = count p rest (tally p c t) in if not c.definition.enabled then skipped else later

-- The switch on the two counts: the state, and whether it is ready and degraded.
unfoldable pub judge : ℕ → ℕ → String × Bool × Bool
judge enabled running =
    if ltb 0 enabled && eqb running enabled
    then ("running", true, false)
    else if ltb 0 running
    then ("degraded", false, true)
    else if ltb 0 enabled
    then ("stopped", false, false)
    else ("idle", true, false)

abbrev pub no_tally : Tally
no_tally = record { enabled = 0; running = 0; capabilities = [] }

module _ {P : Type 0} (sort : List String → List String) where
  unfoldable pub runtime_status : Repository P → RuntimeStatus
  unfolding count judge all_channels
  runtime_status r =
      let t = count r.platform (all_channels r.registry) no_tally in
      let (state, ready, degraded) = judge t.enabled t.running in
      record {
        state = state;
        ready = ready;
        degraded = degraded;
        active = t.running;
        counters =
            ("enabled", t.enabled)
            ∷ ("running", t.running)
            ∷ ("not_running", t.enabled - t.running)
            ∷ ("inbound_dropped", r.inbound_dropped)
            ∷ ("gate_forward_dropped", r.forward_dropped)
            ∷ ("gate_forward_failures", r.forward_failures)
            ∷ [];
        capabilities = sort t.capabilities;
      }

unfoldable pub list : {P : Type 0} → Repository P → List Definition
unfolding all_channels
list r = map (λ c. c.definition) (all_channels r.registry)

abbrev pub known_kinds : List String
known_kinds =
    "dingtalk" ∷ "feishu" ∷ "qq" ∷ "telegram" ∷ "webhook" ∷ "wecom" ∷ "wecom_aibot" ∷ "wecom_app"
    ∷ []

-- `DefinitionEntity{ID: kind, Kind: kind}`.
abbrev pub bare : String → Definition
bare kind = record {
  id = kind;
  kind = kind;
  enabled = false;
  capabilities = [];
  group_trigger = record { mention_only = false; prefixes = [] };
  queue_size = 0;
  max_retries = 0;
}

-- The loop of `Catalog` over the kinds that are known.
unfoldable pub add_kinds : List String → List String → List Definition
unfolding has
add_kinds configured [] = []
add_kinds configured (kind ∷ rest) =
    let later = add_kinds configured rest in
    if has kind configured then later else bare kind ∷ later

unfoldable pub catalog :
    {P : Type 0} → (List Definition → List Definition) → Repository P → List Definition
unfolding list add_kinds
catalog sort r =
    let definitions = list r in
    sort (definitions ++ add_kinds (map (λ d. d.kind) definitions) known_kinds)
