-- ===== src/Engine/Eval/Gates.antt =====
-- What one rule's evaluation does to the state that all calls share.
use chaotic.Base.{
  ◌≡◌, not, ◌&&◌, if◌then◌else◌, Bool, true, false, ◌∷◌, List, Option, none, some, is_some, Text,
  refl, arith,
}
use chaotic.Engine.Op.{Op}
use chaotic.Fault.{Fault}
use chaotic.Engine.Bucket.{Bucket, allow}
use chaotic.Engine.Semaphore.{Semaphore, try_acquire}
use chaotic.Engine.Rule.{Store, Rule, Call, matches, decide_fire, rule_allows}
use chaotic.Engine.World.{
  World, Action, pass, tracking, rule_action, Reason, Notice, rule_fired, rule_skipped, is_nil,
  notify_skip, pass_or_track,
}
use chaotic.Engine.Eval.{
  Verdict, eval_rule, is_spent, commit, slot_gate, rate_gate, budget_gate, rule_gate, counter_gate,
  stop,
}

abbrev pub rate_reason : Call → Option Bucket → Reason
rate_reason c none = Reason.max_concurrent
rate_reason c (some b) = if (allow c.now b).1 then Reason.max_concurrent else Reason.rate_limit

-- Why an engine-wide rail stops a call whose rule fired: the first that is in its way.
abbrev pub rail_reason : Call → World → Reason
rail_reason c w =
    if is_spent w.engine.budget then Reason.failure_budget else rate_reason c w.engine.rate_limiter

-- The notice about a rule, by what the call gets: it fired, with the action of the call; or it was
-- passed over, or a rail ended the call, with the reasons.
abbrev pub notice_as : Text → Op → Reason → Reason → Option Action → Notice
notice_as name op skip rail none = rule_skipped name op skip
notice_as name op skip rail (some (rule_action a)) = rule_fired name op a
notice_as name op skip rail (some pass) = rule_skipped name op rail
notice_as name op skip rail (some tracking) = rule_skipped name op rail

abbrev pub notice_of : Call → Op → Rule → World → Option Action → Notice
notice_of c op r w verdict =
    notice_as r.name op
      (if is_some (decide_fire r c.now op w.store).1 then Reason.rate_limit else Reason.counter)
      (rail_reason c w) verdict

abbrev is_heard : Rule → World → Bool
is_heard r w = w.engine.observer && not (is_nil r.name)

abbrev Tells : Rule → Op → Reason → Reason → World → Verdict → Type 0
Tells r op skip rail w (w', verdict) =
    w'.notices
    ≡ (if is_heard r w then notice_as r.name op skip rail verdict ∷ w.notices else w.notices)

stop-Tells :
    (r : Rule) (op : Op) (skip rail : Reason) (w : World)
    → Tells r op skip rail w
        (notify_skip r.name op rail w, some (pass_or_track (notify_skip r.name op rail w).engine))
unfolding notify_skip pass_or_track
stop-Tells r op skip rail w = ground arith

commit-Tells :
    (r : Rule) (op : Op) (skip rail : Reason) (faults : List Fault) (holds : Bool) (w : World)
    → Tells r op skip rail w (commit op r faults holds w)
unfolding commit
commit-Tells r op skip rail faults holds w = ground arith

slot_gate-Tells :
    (r : Rule) (op : Op) (skip : Reason) (faults : List Fault) (o : Option Semaphore) (w : World)
    → Tells r op skip Reason.max_concurrent w (slot_gate op r faults o w)
unfolding slot_gate
slot_gate-Tells r op skip faults none w =
    commit-Tells r op skip Reason.max_concurrent faults false w
slot_gate-Tells r op skip faults (some s) w = go (try_acquire s)
  where
    go :
        (o : Option Semaphore)
        → Tells r op skip Reason.max_concurrent w (elim o [
          | none ↦ stop (notify_skip r.name op Reason.max_concurrent w)
          | some s' ↦
              commit op r faults true
                (record w { engine = record (w.engine) { max_conc = some s' } })
        ])
    go none = stop-Tells r op skip Reason.max_concurrent w
    go (some s') =
        commit-Tells r op skip Reason.max_concurrent faults true
          (record w { engine = record (w.engine) { max_conc = some s' } })

rate_gate-Tells :
    (c : Call) (r : Rule) (op : Op) (skip : Reason) (faults : List Fault) (o : Option Bucket)
    (w : World)
    → Tells r op skip (rate_reason c o) w (rate_gate c op r faults o w)
unfolding rate_gate
rate_gate-Tells c r op skip faults none w = slot_gate-Tells r op skip faults w.engine.max_conc w
rate_gate-Tells c r op skip faults (some b) w = go (allow c.now b).1
  where
    w' : World
    w' = record w { engine = record (w.engine) { rate_limiter = some (allow c.now b).0 } }

    go :
        (ok : Bool)
        → Tells r op skip (if ok then Reason.max_concurrent else Reason.rate_limit) w (
            if ok
            then slot_gate op r faults w.engine.max_conc w'
            else stop (notify_skip r.name op Reason.rate_limit w'))
    go true = slot_gate-Tells r op skip faults w.engine.max_conc w'
    go false = stop-Tells r op skip Reason.rate_limit w'

budget_gate-Tells :
    (c : Call) (r : Rule) (op : Op) (skip : Reason) (faults : List Fault) (w : World)
    → Tells r op skip
        (if is_spent w.engine.budget
          then Reason.failure_budget
          else rate_reason c w.engine.rate_limiter)
        w
        (budget_gate c op r faults w)
unfolding budget_gate
budget_gate-Tells c r op skip faults w = go (is_spent w.engine.budget)
  where
    go :
        (spent : Bool)
        → Tells r op skip
            (if spent then Reason.failure_budget else rate_reason c w.engine.rate_limiter)
            w
            (if spent
              then stop (notify_skip r.name op Reason.failure_budget w)
              else rate_gate c op r faults w.engine.rate_limiter w)
    go true = stop-Tells r op skip Reason.failure_budget w
    go false = rate_gate-Tells c r op skip faults w.engine.rate_limiter w

passed_over-Tells :
    (r : Rule) (op : Op) (skip rail : Reason) (w : World)
    → Tells r op skip rail w (notify_skip r.name op skip w, none)
unfolding notify_skip
passed_over-Tells r op skip rail w = ground arith

rule_gate-Tells :
    (c : Call) (r : Rule) (op : Op) (faults : List Fault) (w : World)
    → Tells r op Reason.rate_limit (rail_reason c w) w (rule_gate c op r faults w)
unfolding rule_gate
rule_gate-Tells c r op faults w = go (rule_allows r.limiter_at c.now w.store).1
  where
    w' : World
    w' = record w { store = (rule_allows r.limiter_at c.now w.store).0 }

    go :
        (ok : Bool)
        → Tells r op Reason.rate_limit (rail_reason c w) w (
            if ok
            then budget_gate c op r faults w'
            else (notify_skip r.name op Reason.rate_limit w', none))
    go true = budget_gate-Tells c r op Reason.rate_limit faults w'
    go false = passed_over-Tells r op Reason.rate_limit (rail_reason c w) w'

counter_gate-Tells :
    (c : Call) (op : Op) (r : Rule) (w : World) (d : Store × Option (List Fault))
    → Tells r op
        (if is_some d.1 then Reason.rate_limit else Reason.counter)
        (rail_reason c w)
        w
        (counter_gate c op r w d)
unfolding counter_gate
counter_gate-Tells c op r w (s, none) =
    passed_over-Tells r op Reason.counter (rail_reason c w) (record w { store = s })
counter_gate-Tells c op r w (s, some faults) =
    rule_gate-Tells c r op faults (record w { store = s })

-- An observer is told exactly once about a named rule that matches the op, and of no other: that it
-- fired, with the op and the action that the call gets, or that it was skipped, with the reason: its
-- schedule or its own limit where the next rule is tried, and otherwise the first rail of the budget,
-- the rate and the concurrency that stops the call.
pub eval_rule-notices :
    (c : Call) (op : Op) (r : Rule) (w : World)
    → let (w', verdict) = eval_rule c op r w in
      w'.notices ≡ (
        if matches r c op && (w.engine.observer && not (is_nil r.name))
        then notice_of c op r w verdict ∷ w.notices
        else w.notices)
unfolding eval_rule
eval_rule-notices c op r w = go (matches r c op)
  where
    d : Store × Option (List Fault)
    d = decide_fire r c.now op w.store

    go :
        (m : Bool)
        → let (w', verdict) = if m then counter_gate c op r w d else (w, none) in
          w'.notices
          ≡ (if m && is_heard r w then notice_of c op r w verdict ∷ w.notices else w.notices)
    go true = counter_gate-Tells c op r w d
    go false = refl

-- Evaluating a rule leaves the rules, the switches and the failure budget alone.
pub eval_rule-fixed :
    (c : Call) (op : Op) (r : Rule) (w : World)
    → let e = (eval_rule c op r w).0.engine in
      (e.rules ≡ w.engine.rules)
      × (e.killswitch ≡ w.engine.killswitch)
      × (e.budget ≡ w.engine.budget)
      × (e.disabled ≡ w.engine.disabled)
      × (e.observer ≡ w.engine.observer)
unfolding eval_rule
eval_rule-fixed c op r w = ground arith
