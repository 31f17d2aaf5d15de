-- ===== src/Engine/Eval/Hits.antt =====
-- The hit counters of named rules across an evaluation.
use chaotic.Base.{
  ℕ, ◌≡◌, Bool, false, if◌then◌else◌, List, [], ◌∷◌, Option, none, some, Text, arith, lookup,
  lookup-insert, text_eq, text_eq_iff, inc64, Option-cases, inl, inr, Bool-cases,
}
use chaotic.Engine.Op.{Op}
use chaotic.Engine.Rule.{Rule, Call}
use chaotic.Engine.World.{
  World, Engine, Action, pass, tracking, rule_action, is_nil, hits, record_hit, pass_or_track,
  rules_for, enabled,
}
use chaotic.Engine.Eval.Cases.{eval_lem}
use chaotic.Engine.Eval.{eval_rule, eval_rules, eval, is_killed}

-- The action is that of a rule with this name.
abbrev pub fired_as : Text → Action → Bool
fired_as n pass = false
fired_as n tracking = false
fired_as n (rule_action a) = text_eq a.name n

abbrev verdict_as : Text → Option Action → Bool
verdict_as n none = false
verdict_as n (some a) = fired_as n a

lookup-record_hit :
    (m n : Text) (e : Engine) (k : ℕ)
    → lookup n e.hits ≡ some k
    → is_nil n ≡ false
    → lookup n (record_hit m e).hits ≡ some (if text_eq m n then inc64 k else k)
unfolding record_hit
lookup-record_hit m n e k h v = elim (Option-cases (lookup m e.hits)) [
  | inl missing ↦ ground (arith, missing, text_eq_iff m n)
  | inr (j, found) ↦ ground (arith, found, text_eq_iff m n, lookup-insert m n (inc64 j) e.hits)
]

-- One rule's evaluation counts a hit of the name that it fires as, and no other.
eval_rule-lookup :
    (c : Call) (op : Op) (r : Rule) (w : World) (n : Text) (k : ℕ)
    → lookup n w.engine.hits ≡ some k
    → is_nil n ≡ false
    → lookup n (eval_rule c op r w).0.engine.hits
      ≡ some (if verdict_as n (eval_rule c op r w).1 then inc64 k else k)
unfolding eval_rule pass_or_track
eval_rule-lookup c op r w n k h v = elim (Option-cases (lookup r.name w.engine.hits)) [
  | inl missing ↦ ground (arith, missing, text_eq_iff r.name n)
  | inr (j, found) ↦
      ground (arith, found, text_eq_iff r.name n, lookup-insert r.name n (inc64 j) w.engine.hits)
]

eval_rules-lookup :
    (c : Call) (op : Op) (rs : List Rule) (w : World) (n : Text) (k : ℕ)
    → lookup n w.engine.hits ≡ some k
    → is_nil n ≡ false
    → lookup n (eval_rules c op rs w).0.engine.hits
      ≡ some (if fired_as n (eval_rules c op rs w).1 then inc64 k else k)
unfolding eval_rules
eval_rules-lookup c op [] w n k h v = unfold pass_or_track in ground arith
eval_rules-lookup c op (r ∷ rs) w n k h v =
    ground (
      arith,
      eval_rule-lookup c op r w n k h v,
      eval_rules-lookup c op rs (eval_rule c op r w).0 n k,
    )

eval-lookup :
    (c : Call) (op : Op) (w : World) (n : Text) (k : ℕ)
    → lookup n w.engine.hits ≡ some k
    → is_nil n ≡ false
    → lookup n (eval c op w).0.engine.hits
      ≡ some (if fired_as n (eval c op w).1 then inc64 k else k)
eval-lookup c op w n k h v =
    let rules = eval_rules-lookup c op (rules_for w.engine.rules) w n k h v in
    elim (Bool-cases (enabled w.engine)) [
      | inr off ↦ rw (eval_lem c op w, off) (rw h)
      | inl on ↦ elim (Bool-cases (is_killed w.engine.killswitch c op)) [
        | inl dead ↦ rw (eval_lem c op w, on, dead) (unfold pass_or_track in ground arith)
        | inr alive ↦ rw (eval_lem c op w, on, alive) rules
      ]
    ]

-- One call of `Eval` counts one hit of the rule whose action it returns, if that name has a counter,
-- and no hit of any other name.
pub hits-eval :
    (c : Call) (op : Op) (w : World) (n : Text) (k : ℕ)
    → lookup n w.engine.hits ≡ some k
    → is_nil n ≡ false
    → let (w', a) = eval c op w in
      hits n w'.engine ≡ (if fired_as n a then inc64 (hits n w.engine) else hits n w.engine)
unfolding hits
hits-eval c op w n k h v = ground (arith, eval-lookup c op w n k h v)
