-- ===== src/Engine/Eval/Cases.antt =====
-- The cases of `Eval` and of its loop, as equations.
use chaotic.Base.{true, false, ◌≡◌, refl, if◌then◌else◌, List, ◌∷◌, none, some}
use chaotic.Engine.Op.{Op}
use chaotic.Engine.Rule.{Rule, Call}
use chaotic.Engine.World.{World, Action, pass, pass_or_track, rules_for, enabled}
use chaotic.Engine.Eval.{eval_rule, eval_rules, eval, is_killed}

pub eval_lem :
    (c : Call) (op : Op) (w : World)
    → eval c op w ≡ (
        if enabled w.engine
        then (if is_killed w.engine.killswitch c op
            then (w, pass_or_track w.engine)
            else eval_rules c op (rules_for w.engine.rules) w)
        else (w, pass))
unfolding eval
eval_lem c op w = refl

pub eval_rules_stop :
    (c : Call) (op : Op) (r : Rule) (rs : List Rule) (w : World) (a : Action)
    → (eval_rule c op r w).1 ≡ some a
    → eval_rules c op (r ∷ rs) w ≡ ((eval_rule c op r w).0, a)
unfolding eval_rules
eval_rules_stop c op r rs w a h = rw (h, eval_rules)

pub eval_rules_go :
    (c : Call) (op : Op) (r : Rule) (rs : List Rule) (w : World)
    → (eval_rule c op r w).1 ≡ none
    → eval_rules c op (r ∷ rs) w ≡ eval_rules c op rs (eval_rule c op r w).0
unfolding eval_rules
eval_rules_go c op r rs w h = rw (h, eval_rules)

pub eval_off : (c : Call) (op : Op) (w : World) → enabled w.engine ≡ false → eval c op w ≡ (w, pass)
eval_off c op w off = rw (eval_lem c op w, off)

pub eval_killed :
    (c : Call) (op : Op) (w : World)
    → enabled w.engine ≡ true
    → is_killed w.engine.killswitch c op ≡ true
    → eval c op w ≡ (w, pass_or_track w.engine)
eval_killed c op w on dead = rw (eval_lem c op w, on, dead)

pub eval_alive :
    (c : Call) (op : Op) (w : World)
    → enabled w.engine ≡ true
    → is_killed w.engine.killswitch c op ≡ false
    → eval c op w ≡ eval_rules c op (rules_for w.engine.rules) w
eval_alive c op w on alive = rw (eval_lem c op w, on, alive)
