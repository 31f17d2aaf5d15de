-- ===== src/Engine/Action/Point.antt =====
-- Fault points in the code (chaos/point.go): `PointWith` runs a whole action inline.
use chaotic.Base.{
  ◌+◌, ◌≤◌, ◌≡◌, refl, ap, ◌∙◌, Bool, true, false, if◌then◌else◌, [], Option, none, some, is_some,
  arith, Text, Map, Bool-cases, inl, inr,
}
use chaotic.Fault.{Context, Outcome, returned, panicked}
use chaotic.Engine.Op.{Op}
use chaotic.Engine.Op.Kinds
use chaotic.Engine.Rule.{Call}
use chaotic.Engine.World.{World, Action, pass, tracking, rule_action, enabled}
use chaotic.Engine.Eval.{eval}
use chaotic.Engine.Action.{before, after, outcome, rule_before, do_release}
use chaotic.Engine.Action.Slots.{
  as_held, held_slots, WithinCapacity, eval-slots, before-Returns, after-Returns, outcome-max_conc,
}

-- What follows `Before` in `PointWith`: a panic of `Before` goes through.
unfoldable finish_point : Action → World → Outcome → World × Outcome
finish_point a w (panicked v) = (w, panicked v)
finish_point a w (returned e) = let (a', w') = after a w in (outcome a' (is_some e) w', returned e)

-- `Eval`, `Before` and the rest, one after the other.
unfoldable run_point : Call → Op → World → World × Outcome
unfolding finish_point
run_point c op w =
    let (evaluated, a) = eval c op w in
    let (a', begun, o) = before c.ctx a evaluated in finish_point a' begun o

-- `PointWith` on an engine that is bound.
unfoldable pub point_with : Call → Text → Map Text → World → World × Outcome
unfolding run_point
point_with c name attrs w =
    if enabled w.engine
    then run_point c (record { kind = Kinds.explicit; name = name; method = []; attrs = attrs }) w
    else (w, returned none)

-- `Point`, in a context that may have no engine (`engineFrom`); a nil engine is not enabled.
unfoldable pub point : Call → Text → Option World → Option World × Outcome
unfolding point_with
point c name none = (none, returned none)
point c name (some w) = let (w', o) = point_with c name [] w in (some w', o)

abbrev pub is_panic : Outcome → Bool
is_panic (panicked v) = true
is_panic (returned e) = false

pub before-panicked :
    (c : Context) (a : Action) (w : World)
    → is_panic (before c a w).2 ≡ true
    → as_held (some (before c a w).0) ≡ 0
unfolding before rule_before do_release
before-panicked c pass w h = ground (arith, h)
before-panicked c tracking w h = ground (arith, h)
before-panicked c (rule_action a) w h = ground (arith, h)

pub after-free : (a : Action) (w : World) → as_held (some (after a w).0) ≡ 0
unfolding after do_release
after-free pass w = refl
after-free tracking w = refl
after-free (rule_action a) w = ground arith

finish_point-slots :
    (a : Action) (w : World) (o : Outcome)
    → WithinCapacity w.engine.max_conc
    → as_held (some a) ≤ held_slots w.engine.max_conc
    → (is_panic o ≡ true → as_held (some a) ≡ 0)
    → held_slots (finish_point a w o).0.engine.max_conc + as_held (some a)
      ≡ held_slots w.engine.max_conc
unfolding finish_point
finish_point-slots a w (panicked v) within enough free = omega (arith, free refl)
finish_point-slots a w (returned e) within enough free =
    let (moved, _) = after-Returns a w within enough in
    ap (λ m. held_slots m + as_held (some a))
      (outcome-max_conc (after a w).0 (is_some e) (after a w).1)
    ∙ omega (arith, moved, after-free a w)

run_point-slots :
    (c : Call) (op : Op) (w : World)
    → WithinCapacity w.engine.max_conc
    → held_slots (run_point c op w).0.engine.max_conc ≡ held_slots w.engine.max_conc
run_point-slots c op w h =
    let evaluated = eval c op w in
    let begun = before c.ctx evaluated.1 evaluated.0 in
    let (taken, within) = eval-slots c op w h in
    let (moved, within') =
      before-Returns c.ctx evaluated.1 evaluated.0 within (omega (arith, taken)) in
    let all =
      finish_point-slots begun.0 begun.1 begun.2 within' (omega (arith, taken, moved))
        (before-panicked c.ctx evaluated.1 evaluated.0) in
    unfold run_point in omega (arith, all, moved, taken)

-- A fault point keeps no slot: whatever it returns, and when it panics too, as many slots are in
-- use after it as before it.
pub point_with-slots :
    (c : Call) (name : Text) (attrs : Map Text) (w : World)
    → WithinCapacity w.engine.max_conc
    → held_slots (point_with c name attrs w).0.engine.max_conc ≡ held_slots w.engine.max_conc
point_with-slots c name attrs w h = elim (Bool-cases (enabled w.engine)) [
  | inr off ↦ unfold point_with in rw off refl
  | inl on ↦
      unfold point_with in
      rw on (
        run_point-slots c
          (record { kind = Kinds.explicit; name = name; method = []; attrs = attrs }) w h)
]
