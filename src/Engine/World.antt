-- ===== src/Engine/World.antt =====
-- The engine's state and its administration (engine/engine.go, engine/ruleset.go,
-- engine/observer.go): construction, rule sets, hit counters, and what observers are told.
pub mod Admin
use chaotic.Base.{
  ℕ, suc, ◌+◌, Bool, true, false, not, ◌&&◌, if◌then◌else◌, List, [], ◌∷◌, ◌++◌, Option, none, some,
  is_some, Text, text_eq, Map, lookup, insert, inc64, ℤ,
}
use chaotic.Fault.{Fault, Cells, Any}
use chaotic.Fault
use chaotic.Engine.Op.{Op}
use chaotic.Engine.Bucket.{Bucket, allow}
use chaotic.Engine.Budget.{Budget}
use chaotic.Engine.Semaphore.{Semaphore}
use chaotic.Engine.Rule.{Rule, Store, Call}

-- observer.go: the reasons that the engine gives for a skipped rule.
pub data Reason : Type 0 where
  counter rate_limit max_concurrent failure_budget : Reason

-- A fired rule's action: its faults, whether it holds a slot, and whether its `releaseOnce` is done.
pub record RuleAction : Type 0 where
  pub faults : List Fault
  pub mutators : List Fault
  pub op : Op
  pub name : Text
  pub has_release : Bool
  pub released : Bool

pub data Action : Type 0 where
  pass tracking : Action
  rule_action : RuleAction → Action

-- The calls of the observer's methods, in order.
pub data Notice : Type 0 where
  rule_fired : Text → Op → RuleAction → Notice
  rule_skipped : Text → Op → Reason → Notice
  fault_injected : Text → Op → Fault.Kind → Option ℤ → Notice

-- `rules` is `none` before the first rule set is stored.
pub record Engine : Type 0 where
  pub rules : Option (List Rule)
  pub observer : Bool
  pub rich_observer : Bool
  pub killswitch : Option (Call → Op → Bool)
  pub budget : Option Budget
  pub rate_limiter : Option Bucket
  pub max_conc : Option Semaphore
  pub hits : Map ℕ
  pub disabled : Bool

-- The engine with all that it shares by pointers, and the notices given so far, the last one first.
pub record World : Type 0 where
  pub engine : Engine
  pub store : Store
  pub cells : Cells
  pub notices : List Notice

-- `rulesFor` and `RuleSet.Snapshot` of a slice.
unfoldable pub rules_for : Option (List Rule) → List Rule
rules_for none = []
rules_for (some rs) = rs

abbrev pub is_nil {ℓ} : {A : Type ℓ} → List A → Bool
is_nil [] = true
is_nil (_ ∷ _) = false

-- `Enabled`, of an engine that is not nil.
unfoldable pub enabled : Engine → Bool
unfolding rules_for
enabled e = not e.disabled && not (is_nil (rules_for e.rules))

unfoldable pub disable : Engine → Engine
disable e = record e { disabled = true }

unfoldable pub enable : Engine → Engine
enable e = record e { disabled = false }

-- A counter for a named rule that has none yet.
unfoldable pub register : Rule → Map ℕ → Map ℕ
register r hits =
    if is_nil r.name
    then hits
    else if is_some (lookup r.name hits)
    then hits
    else insert r.name 0 hits

unfoldable pub register_all : List Rule → Map ℕ → Map ℕ
unfolding register
register_all [] hits = hits
register_all (r ∷ rs) hits = register_all rs (register r hits)

unfoldable pub add_rule : Rule → Engine → Engine
unfolding rules_for register
add_rule r e = record e { rules = some (rules_for e.rules ++ r ∷ []); hits = register r e.hits }

unfoldable pub reset : Engine → Engine
reset e = record e { rules = some []; hits = [] }

-- `ReplaceRules`, and `WithRuleSource`, which keeps the counters that are there.
unfoldable pub replace_rules : List Rule → Engine → Engine
unfolding register_all
replace_rules rs e = record e { rules = some rs; hits = register_all rs [] }

unfoldable pub with_rule_source : List Rule → Engine → Engine
unfolding register_all
with_rule_source rs e = record e { rules = some rs; hits = register_all rs e.hits }

-- `recordHit`: an unknown name and the empty one are not counted.
unfoldable pub record_hit : Text → Engine → Engine
record_hit name e = if is_nil name then e else elim (lookup name e.hits) [
  | none ↦ e
  | some n ↦ record e { hits = insert name (inc64 n) e.hits }
]

-- `Hits`, as a bit pattern.
unfoldable pub hits : Text → Engine → ℕ
hits name e = if is_nil name then 0 else elim (lookup name e.hits) [ none ↦ 0 | some n ↦ n ]

-- `AllHits`, as bit patterns.
unfoldable pub all_hits : Engine → Map ℕ
all_hits e = e.hits

-- `passOrTrack`.
unfoldable pub pass_or_track : Engine → Action
pass_or_track e = elim e.budget [ none ↦ pass | some _ ↦ tracking ]

-- The observer hears of named rules only.
unfoldable pub notify : Text → Notice → World → World
notify name n w =
    if w.engine.observer && not (is_nil name) then record w { notices = n ∷ w.notices } else w

-- `notifySkip`.
unfoldable pub notify_skip : Text → Op → Reason → World → World
unfolding notify
notify_skip name op reason w = notify name (rule_skipped name op reason) w
