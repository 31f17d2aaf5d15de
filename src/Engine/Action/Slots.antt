-- ===== src/Engine/Action/Slots.antt =====
-- The slots of `WithMaxConcurrent`: what each operation takes and gives back.
use chaotic.Base.{
  ℕ, ◌+◌, ◌≤◌, ◌≡◌, inl, inr, refl, ◌∙◌, Bool, false, not, ◌&&◌, if◌then◌else◌, List, [], ◌∷◌,
  Option, none, some, arith, Option-cases, Bool-cases,
}
use chaotic.Fault.{Fault, Context, Any, apply, mutate_result}
use chaotic.Engine.Op.{Op}
use chaotic.Engine.Semaphore.{Semaphore, try_acquire, release}
use chaotic.Engine.Rule.{Rule, Call}
use chaotic.Engine.World.{
  World, Action, RuleAction, pass, tracking, rule_action, pass_or_track, enabled, rules_for,
}
use chaotic.Engine.Eval.{eval_rule, eval_rules, eval, is_killed}
use chaotic.Engine.Eval.Cases.{eval_off, eval_killed, eval_alive, eval_rules_stop, eval_rules_go}
use chaotic.Engine.Action.{
  before, after, outcome, result, run_faults, rule_before, do_release, notify_injected, mutate_all,
}

-- The action holds a slot that it has not given back.
abbrev pub holds : Action → Bool
holds pass = false
holds tracking = false
holds (rule_action a) = a.has_release && not a.released

abbrev pub held_slots : Option Semaphore → ℕ
held_slots none = 0
held_slots (some s) = s.held

abbrev pub WithinCapacity : Option Semaphore → Type 0
WithinCapacity none = Unit {0}
WithinCapacity (some s) = s.held ≤ s.capacity

-- 1 for an action that holds a slot.
abbrev pub as_held : Option Action → ℕ
as_held none = 0
as_held (some a) = if holds a then 1 else 0

eval_rule-slots :
    (c : Call) (op : Op) (r : Rule) (w : World)
    → WithinCapacity w.engine.max_conc
    → let (w', v) = eval_rule c op r w in
      (held_slots w'.engine.max_conc ≡ held_slots w.engine.max_conc + as_held v)
      × WithinCapacity w'.engine.max_conc
unfolding eval_rule pass_or_track try_acquire
eval_rule-slots c op r w h = ground arith

eval_rules-slots :
    (c : Call) (op : Op) (rs : List Rule) (w : World)
    → WithinCapacity w.engine.max_conc
    → let (w', a) = eval_rules c op rs w in
      (held_slots w'.engine.max_conc ≡ held_slots w.engine.max_conc + as_held (some a))
      × WithinCapacity w'.engine.max_conc
eval_rules-slots c op [] w h = unfold eval_rules pass_or_track in ground arith
eval_rules-slots c op (r ∷ rs) w h =
    let (counted, within) = eval_rule-slots c op r w h in
    elim (Option-cases (eval_rule c op r w).1) [
      | inl goes ↦
          let (more, still) = eval_rules-slots c op rs (eval_rule c op r w).0 within in
          rw (eval_rules_go c op r rs w goes) (ground (arith, goes, counted, more), still)
      | inr (a, stops) ↦ rw (eval_rules_stop c op r rs w a stops) (counted ∙ rw stops, within)
    ]

pub eval-slots :
    (c : Call) (op : Op) (w : World)
    → WithinCapacity w.engine.max_conc
    → let (w', a) = eval c op w in
      (held_slots w'.engine.max_conc ≡ held_slots w.engine.max_conc + as_held (some a))
      × WithinCapacity w'.engine.max_conc
eval-slots c op w h = elim (Bool-cases (enabled w.engine)) [
  | inr off ↦ rw (eval_off c op w off) (omega arith, h)
  | inl on ↦ elim (Bool-cases (is_killed w.engine.killswitch c op)) [
    | inl dead ↦ rw (eval_killed c op w on dead) (unfold pass_or_track in ground arith, h)
    | inr alive ↦
        rw (eval_alive c op w on alive) (eval_rules-slots c op (rules_for w.engine.rules) w h)
  ]
]

pub run_faults-engine :
    (c : Context) (a : RuleAction) (fs : List Fault) (w : World)
    → (run_faults c a fs w).0.engine ≡ w.engine
unfolding run_faults
run_faults-engine c a [] w = refl
run_faults-engine c a (f ∷ fs) w = ground (
  arith,
  run_faults-engine c a fs (notify_injected a f (record w { cells = (apply c f w.cells).cells })),
)

-- A use of an action: the slots that it gives back are those that it no longer holds.
abbrev pub Returns : Action → Option Semaphore → Action → Option Semaphore → Type 0
Returns a m a' m' =
    WithinCapacity m
    → as_held (some a) ≤ held_slots m
    → (held_slots m' + as_held (some a) ≡ held_slots m + as_held (some a')) × WithinCapacity m'

do_release-Returns :
    (a : RuleAction) (w : World)
    → Returns
        (rule_action a)
        w.engine.max_conc
        (rule_action (do_release a w).0)
        (do_release a w).1.engine.max_conc
unfolding do_release release
do_release-Returns a w h p = ground arith

pub before-Returns :
    (c : Context) (a : Action) (w : World)
    → Returns a w.engine.max_conc (before c a w).0 (before c a w).1.engine.max_conc
unfolding before
before-Returns c pass w h p = (refl, h)
before-Returns c tracking w h p = (refl, h)
before-Returns c (rule_action a) w h p =
    unfold rule_before release in ground (arith, run_faults-engine c a a.faults w)

pub after-Returns :
    (a : Action) (w : World)
    → Returns a w.engine.max_conc (after a w).0 (after a w).1.engine.max_conc
unfolding after
after-Returns pass w h p = (refl, h)
after-Returns tracking w h p = (refl, h)
after-Returns (rule_action a) w h p = do_release-Returns a w h p

notify_injected-engine :
    (a : RuleAction) (f : Fault) (w : World) → (notify_injected a f w).engine ≡ w.engine
unfolding notify_injected
notify_injected-engine a f w = ground arith

mutate_all-engine :
    (a : RuleAction) (fs : List Fault) (v : Any) (w : World)
    → (mutate_all a fs v w).1.engine ≡ w.engine
unfolding mutate_all
mutate_all-engine a [] v w = refl
mutate_all-engine a (f ∷ fs) v w = elim (Option-cases (mutate_result f)) [
  | inl plain ↦ rw (plain, mutate_all) (mutate_all-engine a fs v w)
  | inr (m, e) ↦
      rw (e, mutate_all)
        (mutate_all-engine a fs (m v) (notify_injected a f w) ∙ notify_injected-engine a f w)
]

pub result-engine : (a : Action) (v : Any) (w : World) → (result a v w).1.engine ≡ w.engine
unfolding result
result-engine pass v w = refl
result-engine tracking v w = refl
result-engine (rule_action a) v w = mutate_all-engine a a.mutators v w

pub outcome-max_conc :
    (a : Action) (is_err : Bool) (w : World)
    → (outcome a is_err w).engine.max_conc ≡ w.engine.max_conc
unfolding outcome
outcome-max_conc pass is_err w = refl
outcome-max_conc tracking is_err w = ground arith
outcome-max_conc (rule_action a) is_err w = ground arith
