-- ===== src/Engine/Action.antt =====
-- What an adapter does with an action (engine/engine.go): `Before`, `After`, `Result`, `Outcome`.
pub mod Faults
pub mod Slots
pub mod Interleaving
pub mod Point
use chaotic.Base.{
  ℕ, ◌+◌, Bool, true, false, not, ◌&&◌, if◌then◌else◌, List, [], ◌∷◌, Option, none, some, is_some,
  ℤ,
}
use chaotic.Fault.{
  Fault, Context, Cells, Any, Outcome, returned, panicked, Err, apply, kind_of, duration,
  mutate_result,
}
use chaotic.Engine.Budget.{Budget, record_outcome}
use chaotic.Engine.Semaphore.{Semaphore, release}
use chaotic.Engine.World.{
  World, Engine, Action, RuleAction, pass, tracking, rule_action, fault_injected,
}

-- `notifyInjected`: the latency of a fault that reports none is 0.
unfoldable pub notify_injected : RuleAction → Fault → World → World
notify_injected a f w =
    if w.engine.rich_observer
    then record w { notices = fault_injected a.name a.op (kind_of f) (duration f) ∷ w.notices }
    else w

-- The loop of `Before` over the faults: it ends at the first error or panic. The number is the time
-- that the faults have slept.
unfoldable pub run_faults : Context → RuleAction → List Fault → World → World × Outcome × ℕ
unfolding notify_injected
run_faults c a [] w = (w, returned none, 0)
run_faults c a (f ∷ fs) w =
    let r = apply c f w.cells in
    let w' = record w { cells = r.cells } in
    let rest = run_faults c a fs (notify_injected a f w') in
    elim r.outcome [
      | returned none ↦ (rest.0, rest.1, r.slept + rest.2)
      | returned (some e) ↦ (w', returned (some e), r.slept)
      | panicked v ↦ (w', panicked v, r.slept)
    ]

-- `doRelease`: the slot goes back once.
unfoldable pub do_release : RuleAction → World → RuleAction × World
do_release a w =
    if a.has_release && not a.released
    then (
      record a { released = true },
      record w {
        engine = record (w.engine) {
          max_conc = elim w.engine.max_conc [ none ↦ none | some s ↦ some (release s) ];
        };
      },
    )
    else (a, w)

abbrev pub is_nil_return : Outcome → Bool
is_nil_return (returned none) = true
is_nil_return (returned (some e)) = false
is_nil_return (panicked v) = false

-- `ruleAction.Before`, with its deferred function: a panic goes on after the release.
unfoldable pub rule_before : Context → RuleAction → World → RuleAction × World × Outcome
unfolding run_faults do_release
rule_before c a w =
    let (w', o, slept) = run_faults c a a.faults w in
    if is_nil_return o then (a, w', o) else ((do_release a w').0, (do_release a w').1, o)

-- `Before` of every action.
unfoldable pub before : Context → Action → World → Action × World × Outcome
unfolding rule_before
before c pass w = (pass, w, returned none)
before c tracking w = (tracking, w, returned none)
before c (rule_action a) w = let (a', w', o) = rule_before c a w in (rule_action a', w', o)

-- `After` of every action; its error is always nil.
unfoldable pub after : Action → World → Action × World
unfolding do_release
after pass w = (pass, w)
after tracking w = (tracking, w)
after (rule_action a) w = let (a', w') = do_release a w in (rule_action a', w')

-- The loop of `Result` over the mutators.
unfoldable pub mutate_all : RuleAction → List Fault → Any → World → Any × World
unfolding notify_injected
mutate_all a [] v w = (v, w)
mutate_all a (f ∷ fs) v w = elim (mutate_result f) [
  | none ↦ mutate_all a fs v w
  | some m ↦ mutate_all a fs (m v) (notify_injected a f w)
]

-- `Result`, where the action has it: the adapters keep the result otherwise.
unfoldable pub result : Action → Any → World → Any × World
unfolding mutate_all
result pass v w = (v, w)
result tracking v w = (v, w)
result (rule_action a) v w = mutate_all a a.mutators v w

-- `recordOutcome`.
unfoldable pub record_call : Bool → Engine → Engine
record_call is_err e = elim e.budget [
  | none ↦ e
  | some b ↦ record e { budget = some (record_outcome is_err b) }
]

-- `Outcome`, where the action has it.
unfoldable pub outcome : Action → Bool → World → World
unfolding record_call
outcome pass is_err w = w
outcome tracking is_err w = record w { engine = record_call is_err w.engine }
outcome (rule_action a) is_err w = record w { engine = record_call is_err w.engine }
