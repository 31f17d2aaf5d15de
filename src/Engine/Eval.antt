-- ===== src/Engine/Eval.antt =====
-- The decision of the engine (engine/engine.go): `Eval`, `evalRule` and what they call. The gates of
-- `evalRule` are one function each, in the order of the source; a gate that lets the call through
-- goes on to the next.
pub mod Cases
pub mod Gates
pub mod Selection
pub mod Hits
pub mod Partition
use chaotic.Base.{
  ℕ, ◌+◌, Bool, true, false, not, ◌&&◌, if◌then◌else◌, List, [], ◌∷◌, ◌++◌, Option, none, some,
  is_some, Text, any, filter,
}
use chaotic.Fault.{Fault, mutate_result}
use chaotic.Engine.Op.{Op}
use chaotic.Engine.Bucket.{Bucket, allow}
use chaotic.Engine.Budget.{Budget, over_budget}
use chaotic.Engine.Semaphore.{Semaphore, try_acquire}
use chaotic.Engine.Rule.{Rule, Store, Call, matches, decide_fire, rule_allows}
use chaotic.Engine.World.{
  World, Engine, Action, RuleAction, Reason, pass, rule_action, rule_fired, rules_for, enabled,
  record_hit, pass_or_track, notify, notify_skip,
}

abbrev pub is_mutator : Fault → Bool
is_mutator f = is_some (mutate_result f)

-- The second loop of `partitionFaults`, on the slices built so far.
unfoldable pub split_faults : List Fault → List Fault → List Fault → List Fault × List Fault
split_faults before mutators [] = (before, mutators)
split_faults before mutators (f ∷ fs) =
    if is_mutator f
    then split_faults before (mutators ++ f ∷ []) fs
    else split_faults (before ++ f ∷ []) mutators fs

unfoldable pub partition_faults : List Fault → List Fault × List Fault
unfolding split_faults
partition_faults fs = if any is_mutator fs then split_faults [] [] fs else (fs, [])

-- A gate's answer: the new state, and the action if `Eval` is to stop here.
abbrev pub Verdict : Type 0
Verdict = World × Option Action

-- The rule fires.
unfoldable pub commit : Op → Rule → List Fault → Bool → World → Verdict
unfolding record_hit partition_faults notify
commit op r faults holds w =
    let (before, mutators) = partition_faults faults in
    let a : RuleAction = record {
      faults = before;
      mutators = mutators;
      op = op;
      name = r.name;
      has_release = holds;
      released = false;
    } in
    let hit = record w { engine = record_hit r.name w.engine } in
    (notify r.name (rule_fired r.name op a) hit, some (rule_action a))

abbrev stop : World → Verdict
stop w = (w, some (pass_or_track w.engine))

-- `acquireSlot`.
slot_gate : Op → Rule → List Fault → Option Semaphore → World → Verdict
unfolding commit notify_skip
slot_gate op r faults none w = commit op r faults false w
slot_gate op r faults (some s) w = elim (try_acquire s) [
  | none ↦ stop (notify_skip r.name op Reason.max_concurrent w)
  | some s' ↦
      commit op r faults true (record w { engine = record (w.engine) { max_conc = some s' } })
]

rate_gate : Call → Op → Rule → List Fault → Option Bucket → World → Verdict
unfolding slot_gate notify_skip
rate_gate c op r faults none w = slot_gate op r faults w.engine.max_conc w
rate_gate c op r faults (some b) w =
    let (b', ok) = allow c.now b in
    let w' = record w { engine = record (w.engine) { rate_limiter = some b' } } in
    if ok
    then slot_gate op r faults w.engine.max_conc w'
    else stop (notify_skip r.name op Reason.rate_limit w')

abbrev pub is_spent : Option Budget → Bool
is_spent none = false
is_spent (some b) = over_budget b

budget_gate : Call → Op → Rule → List Fault → World → Verdict
unfolding rate_gate notify_skip
budget_gate c op r faults w =
    if is_spent w.engine.budget
    then stop (notify_skip r.name op Reason.failure_budget w)
    else rate_gate c op r faults w.engine.rate_limiter w

-- The rule's own limit: a throttled rule is passed over.
rule_gate : Call → Op → Rule → List Fault → World → Verdict
unfolding budget_gate notify_skip
rule_gate c op r faults w =
    let (s, ok) = rule_allows r.limiter_at c.now w.store in
    let w' = record w { store = s } in
    if ok then budget_gate c op r faults w' else (notify_skip r.name op Reason.rate_limit w', none)

-- What follows `decideFire`.
counter_gate : Call → Op → Rule → World → Store × Option (List Fault) → Verdict
unfolding rule_gate notify_skip
counter_gate c op r w (s, none) =
    (notify_skip r.name op Reason.counter (record w { store = s }), none)
counter_gate c op r w (s, some faults) = rule_gate c op r faults (record w { store = s })

unfoldable pub eval_rule : Call → Op → Rule → World → Verdict
unfolding counter_gate
eval_rule c op r w =
    if matches r c op then counter_gate c op r w (decide_fire r c.now op w.store) else (w, none)

-- The loop of `Eval` over the rules.
unfoldable pub eval_rules : Call → Op → List Rule → World → World × Action
eval_rules c op [] w = (w, pass_or_track w.engine)
eval_rules c op (r ∷ rs) w =
    let (w', verdict) = eval_rule c op r w in
    elim verdict [ some a ↦ (w', a) | none ↦ eval_rules c op rs w' ]

abbrev pub is_killed : Option (Call → Op → Bool) → Call → Op → Bool
is_killed none c op = false
is_killed (some k) c op = k c op

unfoldable pub eval : Call → Op → World → World × Action
unfolding eval_rules enabled
eval c op w =
    if enabled w.engine
    then (if is_killed w.engine.killswitch c op
        then (w, pass_or_track w.engine)
        else eval_rules c op (rules_for w.engine.rules) w)
    else (w, pass)
