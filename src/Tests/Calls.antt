-- ===== src/Tests/Calls.antt =====
-- The calls of an engine.
use chaotic.Base.{
  ℕ, ◌≡◌, ◌≢◌, ◌+◌, ◌<◌, refl, Bool, true, false, List, [], ◌∷◌, ◌++◌, Option, none, some, Text,
  Map, bytes, pos, count, filter, length, suc, not, ◌&&◌, if◌then◌else◌, inc64, is_some, inl, inr,
  arith,
}
use chaotic.Fault.{Fault, Context}
use chaotic.Engine.Rule.{Store, Rule, Call, decide_fire, matches}
use chaotic.Engine.World.{
  World, Action, rules_for, enabled, hits, is_nil, add_rule, with_rule_source, replace_rules, reset,
  record_hit,
}
use chaotic.Engine.World.Admin.{IsRegistered, admin-IsRegistered}
use chaotic.Engine.Eval.{eval, eval_rule, is_killed, is_mutator}
use chaotic.Engine.Eval.Selection.{passes_over, eval-fired}
use chaotic.Engine.Eval.Partition.{is_before}
use chaotic.Engine.Eval.Gates.{notice_of, eval_rule-notices}
use chaotic.Engine.Eval.Hits.{fired_as, hits-eval}
use chaotic.Engine.Action.{rule_before}
use chaotic.Engine.Action.Faults.{EndsAs, rule_before-EndsAs}
use chaotic.Engine.Action.Slots.{holds, held_slots, WithinCapacity}
use chaotic.Engine.Action.Interleaving.{System, here, next, evals, Reach-slots}
use chaotic.Engine.Action.Point.{point_with, point_with-slots}
use chaotic.Engine.New.{EngineOption}
use chaotic.Engine.New.Start.{HasStarted, new-HasStarted}
use chaotic.Tests.{store, quiet, noon, query, faults, rule, engine, world, action, idle}

abbrev busy : System
busy = record { world = (eval noon query world).0; live = (eval noon query world).1 ∷ [] }

Reach-slots_example :
    (count holds busy.live ≡ held_slots busy.world.engine.max_conc)
    × WithinCapacity busy.world.engine.max_conc
    × ((a : Action) (xs ys : List Action)
        → busy.live ≡ xs ++ (a ∷ ys)
        → holds a ≡ true
        → 0 < held_slots busy.world.engine.max_conc)
Reach-slots_example =
    Reach-slots {s = idle} {t = busy} (refl, refl) (next here (evals noon query refl refl))

eval-fired_example :
    (enabled engine ≡ true)
    × (is_killed none noon query ≡ false)
    × ((before : List Rule) × (r : Rule) × (after : List Rule) × (v : World) × (rules_for
            (some (rule ∷ []))
          ≡ before ++ (r ∷ after))
        × (passes_over noon query before world ≡ some v)
        × ((matches r noon query ≡ true)
            × (bytes "r" ≡ r.name)
            × (query ≡ query)
            × (false ≡ false)
            × ((fs : List Fault) × ((decide_fire r 1000 query v.store).1 ≡ some fs)
                × (action.faults ≡ filter is_before fs)
                × (action.mutators ≡ filter is_mutator fs))))
unfolding eval eval_rule matches decide_fire chaotic.Engine.Counter.should_fire
    chaotic.Engine.Rule.rule_allows chaotic.Engine.Semaphore.try_acquire chaotic.Fault.mutate_result
eval-fired_example = eval-fired noon query world action refl

rule_before-EndsAs_example :
    EndsAs quiet action.faults world.cells
      (rule_before quiet action world).2
      (rule_before quiet action world).1.cells
rule_before-EndsAs_example = rule_before-EndsAs quiet action world

hits-eval_example : hits (bytes "r") (eval noon query world).0.engine ≡ (
    if fired_as (bytes "r") (eval noon query world).1
    then inc64 (hits (bytes "r") engine)
    else hits (bytes "r") engine)
unfolding chaotic.Base.lookup chaotic.Base.text_eq
hits-eval_example = hits-eval noon query world (bytes "r") 0 refl refl

eval_rule-notices_example : (eval_rule noon query rule world).0.notices ≡ (
    if matches rule noon query && (true && not (is_nil (bytes "r")))
    then notice_of noon query rule world (eval_rule noon query rule world).1 ∷ []
    else [])
eval_rule-notices_example = eval_rule-notices noon query rule world

abbrev budgeted : World
budgeted = record world {
  engine = record engine {
    budget = some (record {
      rate_num = 1;
      rate_den = 2;
      ring = false ∷ [];
      idx = 0;
      filled = false;
      errors = 0;
    });
  };
}

point_with-slots_example : held_slots (point_with noon (bytes "p") [] world).0.engine.max_conc ≡ 0
point_with-slots_example = point_with-slots noon (bytes "p") [] world (omega arith)

admin-IsRegistered_example :
    IsRegistered (add_rule rule engine)
    × IsRegistered (with_rule_source (rule ∷ []) engine)
    × IsRegistered (replace_rules (rule ∷ []) engine)
    × IsRegistered (reset engine)
    × IsRegistered (record_hit (bytes "r") engine)
unfolding rules_for chaotic.Base.lookup chaotic.Base.text_eq
admin-IsRegistered_example = admin-IsRegistered rule (rule ∷ []) (bytes "r") engine (inr refl, tt)

new-HasStarted_example : HasStarted engine
unfolding chaotic.Engine.New.new with_rule_source chaotic.Engine.Semaphore.new_semaphore
    chaotic.Base.lookup chaotic.Base.insert chaotic.Engine.New.apply_option
new-HasStarted_example =
    new-HasStarted
      (EngineOption.with_observer (some true)
        ∷ EngineOption.with_max_concurrent (pos 2)
        ∷ EngineOption.with_source (rule ∷ [])
        ∷ [])
      engine refl

abbrev unmarked : Store
unmarked = record store {
  trackers = λ p. record { key = bytes "user"; window = pos 50; cap = 1; seen = [] };
}

abbrev sticky_rule : Rule
sticky_rule = record rule { sticky_at = some 1 }

abbrev staged_rule : Rule
staged_rule = record sticky_rule { staged_at = some 0 }
