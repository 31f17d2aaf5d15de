-- ===== src/Engine/New.antt =====
-- The construction of an engine (`New` and its options in engine/engine.go and engine/observer.go).
pub mod Start
use chaotic.Base.{
  ℕ, Bool, true, false, if◌then◌else◌, List, [], ◌∷◌, Option, none, some, is_some, ℤ,
}
use chaotic.Engine.Op.{Op}
use chaotic.Engine.Bucket.{new_token_bucket}
use chaotic.Engine.Budget.{new_failure_budget}
use chaotic.Engine.Semaphore.{new_semaphore}
use chaotic.Engine.Rule.{Rule, Call}
use chaotic.Engine.World.{Engine, with_rule_source}

-- The options. An observer is whether it is a `RichObserver`, a guard is what its call returns; nil
-- is `none`. A rate limit comes with the time of its construction.
pub data EngineOption : Type 0 where
  with_observer : Option Bool → EngineOption
  with_kill_switch : Option (Call → Op → Bool) → EngineOption
  with_source : List Rule → EngineOption
  with_failure_budget : ℤ → ℕ → ℤ → EngineOption
  with_rate_limit : ℤ → ℕ → EngineOption
  with_max_concurrent : ℤ → EngineOption
  with_production_guard : Option Bool → EngineOption

-- The engine under construction, with its guard.
abbrev pub Setup : Type 0
Setup = Engine × Option Bool

abbrev trips : Option Bool → Bool
trips none = false
trips (some b) = b

-- `none` is a panic.
unfoldable pub apply_option : EngineOption → Setup → Option Setup
apply_option (with_observer o) (e, g) =
    some (record e { observer = is_some o; rich_observer = trips o }, g)
apply_option (with_kill_switch k) (e, g) = some (record e { killswitch = k }, g)
apply_option (with_source rs) (e, g) = some (with_rule_source rs e, g)
apply_option (with_failure_budget num den window) (e, g) =
    elim (new_failure_budget num den window) [
      | none ↦ none
      | some b ↦ some (record e { budget = some b }, g)
    ]
apply_option (with_rate_limit rps now) (e, g) = elim (new_token_bucket rps now) [
  | none ↦ none
  | some b ↦ some (record e { rate_limiter = some b }, g)
]
apply_option (with_max_concurrent n) (e, g) = elim (new_semaphore n) [
  | none ↦ none
  | some s ↦ some (record e { max_conc = some s }, g)
]
apply_option (with_production_guard guard) (e, g) = some (e, guard)

abbrev pub blank : Engine
blank = record {
  rules = none;
  observer = false;
  rich_observer = false;
  killswitch = none;
  budget = none;
  rate_limiter = none;
  max_conc = none;
  hits = [];
  disabled = false;
}

-- The loop of `New` over its options.
unfoldable pub apply_all : List EngineOption → Setup → Option Setup
apply_all [] s = some s
apply_all (o ∷ os) s = elim (apply_option o s) [ none ↦ none | some t ↦ apply_all os t ]

unfoldable pub guarded : Option Setup → Option Engine
guarded none = none
guarded (some (e, g)) = if trips g then none else some e

-- `New`; `none` is its panic, of the guard or of an option.
unfoldable pub new : List EngineOption → Option Engine
unfolding apply_all guarded
new os = guarded (apply_all os (blank, none))
