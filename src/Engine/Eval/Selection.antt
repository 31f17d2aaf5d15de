-- ===== src/Engine/Eval/Selection.antt =====
-- Which rule an evaluation selects.
use chaotic.Base.{
  ◌≡◌, ◌≢◌, inl, inr, refl, sym, ap, ◌∙◌, true, false, List, [], ◌∷◌, ◌++◌, Option, none, some,
  is_some, arith, Option-cases, Bool-cases, filter,
}
use chaotic.Fault.{Fault}
use chaotic.Engine.Op.{Op}
use chaotic.Engine.Rule.{Rule, Call, matches, decide_fire}
use chaotic.Engine.World.{
  World, Engine, RuleAction, pass, rule_action, rules_for, enabled, pass_or_track,
}
use chaotic.Engine.Eval.{eval_rule, eval_rules, eval, is_killed, is_mutator}
use chaotic.Engine.Eval.Gates.{eval_rule-fixed}
use chaotic.Engine.Eval.Cases.{
  eval_lem, eval_off, eval_killed, eval_alive, eval_rules_stop, eval_rules_go,
}
use chaotic.Engine.Eval.Partition.{is_before, partition_faults_lem}

-- The rules are evaluated in order and none of them stops the evaluation.
pub passes_over : Call → Op → List Rule → World → Option World
passes_over c op [] w = some w
passes_over c op (r ∷ rs) w = elim (eval_rule c op r w).1 [
  | some a ↦ none
  | none ↦ passes_over c op rs (eval_rule c op r w).0
]

pass_or_track-fires : (e : Engine) (a : RuleAction) → pass_or_track e ≢ rule_action a
unfolding pass_or_track
pass_or_track-fires e a h = ground arith

selected :
    (c : Call) (op : Op) (rs : List Rule) (w : World) (a : RuleAction)
    → (eval_rules c op rs w).1 ≡ rule_action a
    → (before : List Rule) × (r : Rule) × (after : List Rule) × (v : World) × (rs
        ≡ before ++ (r ∷ after))
      × (passes_over c op before w ≡ some v)
      × (eval_rule c op r v ≡ ((eval_rules c op rs w).0, some (rule_action a)))
unfolding passes_over
selected c op [] w a h = absurd (pass_or_track-fires w.engine a (unfold eval_rules in h))
selected c op (r ∷ rs) w a h = elim (Option-cases (eval_rule c op r w).1) [
  | inl goes ↦
      let e = eval_rules_go c op r rs w goes in
      let (before, q, after, v, split, passed, fires) =
        selected c op rs (eval_rule c op r w).0 a (sym (ap (λ p. p.1) e) ∙ h) in
      (r ∷ before, q, after, v, ap (◌∷◌ r) split, rw (goes, passes_over) passed, rw e fires)
  | inr (b, stops) ↦
      let e = eval_rules_stop c op r rs w b stops in
      ([], r, rs, w, refl, refl, ground (arith, e, stops))
]

-- A rule that fires matches the op and decides to fire; its action carries its name and the op, and
-- the faults that the rule injects now, result mutators apart.
eval_rule-fired :
    (c : Call) (op : Op) (r : Rule) (w : World) (a : RuleAction)
    → (eval_rule c op r w).1 ≡ some (rule_action a)
    → (matches r c op ≡ true)
      × (a.name ≡ r.name)
      × (a.op ≡ op)
      × (a.released ≡ false)
      × ((fs : List Fault) × ((decide_fire r c.now op w.store).1 ≡ some fs)
          × (a.faults ≡ filter is_before fs)
          × (a.mutators ≡ filter is_mutator fs))
eval_rule-fired c op r w a h = elim (Option-cases (decide_fire r c.now op w.store).1) [
  | inl quiet ↦ absurd (unfold eval_rule in ground (arith, quiet))
  | inr (fs, fires) ↦
      unfold eval_rule pass_or_track in ground (arith, fires, partition_faults_lem fs)
]

-- `Eval` returns a rule's action only where the engine is enabled and the kill switch off; the rule
-- is the first, in the order of the rule set, that does not pass the call over; it matches the op
-- and decides to fire; and the action carries its name, the op, and the faults that it injects now,
-- those with a result mutator apart.
pub eval-fired :
    (c : Call) (op : Op) (w : World) (a : RuleAction)
    → (eval c op w).1 ≡ rule_action a
    → (enabled w.engine ≡ true)
      × (is_killed w.engine.killswitch c op ≡ false)
      × ((before : List Rule) × (r : Rule) × (after : List Rule) × (v : World) × (rules_for
              w.engine.rules
            ≡ before ++ (r ∷ after))
          × (passes_over c op before w ≡ some v)
          × ((matches r c op ≡ true)
              × (a.name ≡ r.name)
              × (a.op ≡ op)
              × (a.released ≡ false)
              × ((fs : List Fault) × ((decide_fire r c.now op v.store).1 ≡ some fs)
                  × (a.faults ≡ filter is_before fs)
                  × (a.mutators ≡ filter is_mutator fs))))
eval-fired c op w a h = elim (Bool-cases (enabled w.engine)) [
  | inr off ↦ absurd (no_pass (sym (ap (λ p. p.1) (eval_off c op w off)) ∙ h))
  | inl on ↦ elim (Bool-cases (is_killed w.engine.killswitch c op)) [
    | inl dead ↦
        absurd
          (pass_or_track-fires w.engine a (sym (ap (λ p. p.1) (eval_killed c op w on dead)) ∙ h))
    | inr alive ↦
        let looped = sym (ap (λ p. p.1) (eval_alive c op w on alive)) ∙ h in
        let (before, r, after, v, split, passed, fires) =
          selected c op (rules_for w.engine.rules) w a looped in
        (
          on,
          alive,
          (before, r, after, v, split, passed, eval_rule-fired c op r v a (ap (λ p. p.1) fires)),
        )
  ]
]
  where
    no_pass : pass ≢ rule_action a
    no_pass e = cc

-- The loop over the rules.
eval_rules-reports :
    (c : Call) (op : Op) (rs : List Rule) (w : World)
    → is_some w.engine.budget ≡ true
    → (eval_rules c op rs w).1 ≢ pass
eval_rules-reports c op [] w b = unfold eval_rules pass_or_track in ground arith
eval_rules-reports c op (r ∷ rs) w b = elim (Option-cases (eval_rule c op r w).1) [
  | inl goes ↦ rw (eval_rules_go c op r rs w goes) (
      eval_rules-reports c op rs (eval_rule c op r w).0
        (ap is_some (eval_rule-fixed c op r w).2 ∙ b))
  | inr (a, stops) ↦
      rw (eval_rules_stop c op r rs w a stops) (unfold eval_rule pass_or_track in ground arith)
]

-- With a failure budget, `Eval` of an enabled engine never returns the action that records no
-- outcome, whichever rules match.
pub eval-reports :
    (c : Call) (op : Op) (w : World)
    → enabled w.engine ≡ true
    → is_some w.engine.budget ≡ true
    → (eval c op w).1 ≢ pass
eval-reports c op w on b =
    rw (eval_lem c op w, on)
      (elim (Bool-cases (is_killed w.engine.killswitch c op)) [
        | inl dead ↦ rw dead (unfold pass_or_track in ground arith)
        | inr alive ↦ rw alive (eval_rules-reports c op (rules_for w.engine.rules) w b)
      ])
