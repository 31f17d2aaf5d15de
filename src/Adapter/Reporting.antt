-- ===== src/Adapter/Reporting.antt =====
-- An action from its evaluation to its report: slots and budget.
use chaotic.Base.{
  ◌+◌, ◌≤◌, ◌≡◌, ◌≢◌, ◌∙◌, refl, sym, ap, Bool, true, false, if◌then◌else◌, List, [], ◌∷◌, Option,
  none, some, is_some, arith, Bool-cases, Option-cases, inl, inr,
}
use chaotic.Fault.{Context, Outcome}
use chaotic.Engine.Op.{Op}
use chaotic.Engine.Budget.{Budget, record_outcome}
use chaotic.Engine.Rule.{Rule, Call}
use chaotic.Engine.World.{World, Engine, Action, pass, tracking, rule_action, enabled, rules_for}
use chaotic.Engine.Eval.{eval, eval_rule, eval_rules, is_killed}
use chaotic.Engine.Eval.Cases.{eval_killed, eval_alive, eval_rules_stop, eval_rules_go}
use chaotic.Engine.Eval.Gates.{eval_rule-fixed}
use chaotic.Engine.Eval.Selection.{eval-reports}
use chaotic.Engine.Action.{before, after, outcome, rule_before, do_release, record_call}
use chaotic.Engine.Action.Slots.{
  as_held, held_slots, WithinCapacity, eval-slots, run_faults-engine, before-Returns, after-Returns,
  outcome-max_conc,
}
use chaotic.Engine.Action.Point.{is_panic, before-panicked, after-free}
use chaotic.Adapter.{report_outcome}

eval_rules-budget :
    (c : Call) (op : Op) (rs : List Rule) (w : World)
    → (eval_rules c op rs w).0.engine.budget ≡ w.engine.budget
eval_rules-budget c op [] w = unfold eval_rules in refl
eval_rules-budget c op (r ∷ rs) w = elim (Option-cases (eval_rule c op r w).1) [
  | inl goes ↦
      rw (eval_rules_go c op r rs w goes)
        (eval_rules-budget c op rs (eval_rule c op r w).0 ∙ (eval_rule-fixed c op r w).2)
  | inr (a, stops) ↦ rw (eval_rules_stop c op r rs w a stops) (eval_rule-fixed c op r w).2
]

eval-budget :
    (c : Call) (op : Op) (w : World)
    → enabled w.engine ≡ true
    → (eval c op w).0.engine.budget ≡ w.engine.budget
eval-budget c op w on = elim (Bool-cases (is_killed w.engine.killswitch c op)) [
  | inl dead ↦ rw (eval_killed c op w on dead) refl
  | inr alive ↦
      rw (eval_alive c op w on alive) (eval_rules-budget c op (rules_for w.engine.rules) w)
]

do_release-budget : (a : _) (w : World) → (do_release a w).1.engine.budget ≡ w.engine.budget
unfolding do_release
do_release-budget a w = ground arith

before-budget :
    (c : Context) (a : Action) (w : World) → (before c a w).1.engine.budget ≡ w.engine.budget
unfolding before
before-budget c pass w = refl
before-budget c tracking w = refl
before-budget c (rule_action a) w =
    unfold rule_before do_release in ground (arith, run_faults-engine c a a.faults w)

after-budget : (a : Action) (w : World) → (after a w).1.engine.budget ≡ w.engine.budget
unfolding after
after-budget pass w = refl
after-budget tracking w = refl
after-budget (rule_action a) w = do_release-budget a w

-- The action reports outcomes.
abbrev reports : Action → Bool
reports pass = false
reports tracking = true
reports (rule_action a) = true

before-reports : (c : Context) (a : Action) (w : World) → reports (before c a w).0 ≡ reports a
unfolding before
before-reports c pass w = refl
before-reports c tracking w = refl
before-reports c (rule_action a) w = refl

-- The budget after one outcome.
abbrev pub record_in : Bool → Option Budget → Option Budget
record_in is_err none = none
record_in is_err (some b) = some (record_outcome is_err b)

outcome-budget :
    (a : Action) (is_err : Bool) (w : World)
    → (is_some w.engine.budget ≡ true → reports a ≡ true)
    → (outcome a is_err w).engine.budget ≡ record_in is_err w.engine.budget
unfolding outcome record_call
outcome-budget pass is_err w h = ground (arith, h)
outcome-budget tracking is_err w h = ground arith
outcome-budget (rule_action a) is_err w h = ground arith

-- One outcome is recorded, and no slot is left in use.
report_outcome-settles :
    (a : Action) (is_err : Bool) (w : World)
    → WithinCapacity w.engine.max_conc
    → as_held (some a) ≤ held_slots w.engine.max_conc
    → (is_some w.engine.budget ≡ true → reports a ≡ true)
    → let w' = report_outcome a is_err w in
      (held_slots w'.engine.max_conc + as_held (some a) ≡ held_slots w.engine.max_conc)
      × WithinCapacity w'.engine.max_conc
      × (w'.engine.budget ≡ record_in is_err w.engine.budget)
unfolding report_outcome
report_outcome-settles a is_err w h p k =
    let same = outcome-max_conc a is_err w in
    let (moved, within) = after-Returns a (outcome a is_err w) (rw same h) (rw same p) in
    (
      moved
          ∙ ap (λ m. held_slots m + as_held (some (after a (outcome a is_err w)).0)) same
          ∙ omega (arith, after-free a (outcome a is_err w)),
      within,
      after-budget a (outcome a is_err w) ∙ outcome-budget a is_err w k,
    )

-- The evaluation of a call and `Before`: the action, the world and the outcome.
abbrev pub begin : Call → Op → World → Action × World × Outcome
begin c op w = before c.ctx (eval c op w).1 (eval c op w).0

-- An action that has begun: its slot is counted, a panic has given it back, it reports where there is
-- a budget, and no outcome has been recorded yet.
pub record Begun (w : World) (a : Action) (w1 : World) (o : Outcome) : Type 0 where
  pub slots : held_slots w1.engine.max_conc ≡ held_slots w.engine.max_conc + as_held (some a)
  pub within : WithinCapacity w1.engine.max_conc
  pub budget : w1.engine.budget ≡ w.engine.budget
  pub reports_it : is_some w1.engine.budget ≡ true → reports a ≡ true
  pub free : is_panic o ≡ true → as_held (some a) ≡ 0

not_pass : (a : Action) → a ≢ pass → reports a ≡ true
not_pass pass h = absurd (h refl)
not_pass tracking h = refl
not_pass (rule_action a) h = refl

pub begin-Begun :
    (c : Call) (op : Op) (w : World)
    → enabled w.engine ≡ true
    → WithinCapacity w.engine.max_conc
    → let (evaluated, a) = eval c op w in
      let (a', begun, o) = before c.ctx a evaluated in Begun w a' begun o
begin-Begun c op w on h =
    let evaluated = eval c op w in
    let (taken, within) = eval-slots c op w h in
    let (moved, within') =
      before-Returns c.ctx evaluated.1 evaluated.0 within (omega (arith, taken)) in
    let budget : (before c.ctx evaluated.1 evaluated.0).1.engine.budget ≡ w.engine.budget =
      before-budget c.ctx evaluated.1 evaluated.0 ∙ eval-budget c op w on in
    record {
      slots = omega (arith, moved, taken);
      within = within';
      budget = budget;
      reports_it = λ b.
          before-reports c.ctx evaluated.1 evaluated.0
          ∙ not_pass evaluated.1 (eval-reports c op w on (ap is_some (sym budget) ∙ b));
      free = before-panicked c.ctx evaluated.1 evaluated.0;
    }

-- The slots and the budget after one outcome, against those from before the evaluation.
abbrev pub Reported : World → Bool → World → Type 0
Reported w is_err w' =
    (held_slots w'.engine.max_conc ≡ held_slots w.engine.max_conc)
    × WithinCapacity w'.engine.max_conc
    × (w'.engine.budget ≡ record_in is_err w.engine.budget)

-- The report of a begun action, whose world may have changed outside the engine.
pub Begun-report :
    (w : World) (a : Action) (w1 w2 : World) (o : Outcome) (is_err : Bool)
    → Begun w a w1 o
    → w2.engine ≡ w1.engine
    → Reported w is_err (report_outcome a is_err w2)
Begun-report w a w1 w2 o is_err b same =
    let (slots, within, budget) =
      report_outcome-settles a is_err w2 (rw same b.within) (rw same (omega (arith, b.slots)))
        (rw same b.reports_it) in
    (
      omega (arith, slots, b.slots, ap (λ (e : Engine). held_slots e.max_conc) same),
      within,
      budget ∙ ap (λ (e : Engine). record_in is_err e.budget) same ∙ ap (record_in is_err) b.budget,
    )

-- A test that is known to hold.
pub if-kept :
    {A : Type 0} (P : A → Type 0) (b : Bool) (x y : A) → b ≡ true → P x → P (if b then x else y)
if-kept P true x y e p = p
if-kept P false x y e p = cc
