-- ===== src/Engine/Action/Interleaving.antt =====
-- Concurrent calls on one engine: the actions that the callers hold are a list, and the callers use
-- them in any order. A method of an action and `Eval` are one step each.
use chaotic.Base.{
  ◌+◌, ◌<◌, ◌≡◌, refl, ap, sym, ◌∙◌, Bool, true, List, [], ◌∷◌, ◌++◌, Option, none, some, arith,
  count, count-append,
}
use chaotic.Fault.{Context, Any}
use chaotic.Engine.Op.{Op}
use chaotic.Engine.Semaphore.{Semaphore}
use chaotic.Engine.Rule.{Rule, Call}
use chaotic.Engine.World.{World, Engine, Action, add_rule, reset, replace_rules, enable, disable}
use chaotic.Engine.Eval.{eval}
use chaotic.Engine.Action.{before, after, outcome, result}
use chaotic.Engine.Action.Slots.{
  holds, as_held, held_slots, WithinCapacity, Returns, eval-slots, before-Returns, after-Returns,
  result-engine, outcome-max_conc,
}

-- The engine and the actions that its callers hold.
pub record System : Type 0 where
  pub world : World
  pub live : List Action

-- The semaphore counts the actions that hold a slot, and they are at most its capacity.
pub record IsValid (s : System) : Type 0 where
  pub counted : count holds s.live ≡ held_slots s.world.engine.max_conc
  pub bounded : WithinCapacity s.world.engine.max_conc

-- The administration of an engine that a caller may do at any time.
pub data Admin : Type 0 where
  adds : Rule → Admin
  replaces : List Rule → Admin
  resets enables disables : Admin

abbrev pub admin : Admin → Engine → Engine
admin (adds r) e = add_rule r e
admin (replaces rs) e = replace_rules rs e
admin resets e = reset e
admin enables e = enable e
admin disables e = disable e

abbrev put_engine : Engine → World → World
put_engine e w = record w { engine = e }

pub data Step (s t : System) : Type 0 where
  evals :
      (c : Call) (op : Op)
      → t.world ≡ (eval c op s.world).0
      → t.live ≡ (eval c op s.world).1 ∷ s.live
      → Step s t
  befores :
      (c : Context) (a : Action) (xs ys : List Action)
      → s.live ≡ xs ++ (a ∷ ys)
      → t.world ≡ (before c a s.world).1
      → t.live ≡ xs ++ ((before c a s.world).0 ∷ ys)
      → Step s t
  afters :
      (a : Action) (xs ys : List Action)
      → s.live ≡ xs ++ (a ∷ ys)
      → t.world ≡ (after a s.world).1
      → t.live ≡ xs ++ ((after a s.world).0 ∷ ys)
      → Step s t
  results : (a : Action) (v : Any) → t.world ≡ (result a v s.world).1 → t.live ≡ s.live → Step s t
  outcomes :
      (a : Action) (is_err : Bool) → t.world ≡ outcome a is_err s.world → t.live ≡ s.live → Step s t
  admins :
      (x : Admin)
      → t.world ≡ put_engine (admin x s.world.engine) s.world
      → t.live ≡ s.live
      → Step s t

pub data Reach (s : System) : System → Type 0 where
  here : Reach s s
  next : {t u : System} → Reach s t → Step t u → Reach s u

admin-max_conc : (x : Admin) (e : Engine) → (admin x e).max_conc ≡ e.max_conc
unfolding add_rule replace_rules reset enable disable
admin-max_conc (adds r) e = refl
admin-max_conc x e = refl

-- An action among the live ones that holds a slot is counted.
counts :
    (xs ys : List Action) (a : Action)
    → count holds (xs ++ (a ∷ ys)) ≡ count holds xs + as_held (some a) + count holds ys
counts xs ys a = ground (arith, count-append holds xs (a ∷ ys))

IsValid-of :
    (t : System) (m : Option Semaphore) (l : List Action)
    → t.world.engine.max_conc ≡ m
    → t.live ≡ l
    → (count holds l ≡ held_slots m) × WithinCapacity m
    → IsValid t
IsValid-of t m l e f (counted, bounded) = record {
  counted = rw (e, f) counted;
  bounded = rw e bounded;
}

max_of : (w v : World) → w ≡ v → w.engine.max_conc ≡ v.engine.max_conc
max_of w v e = ap (λ (u : World). u.engine.max_conc) e

-- The use of one live action by its holder.
used :
    (s : System) (m : Option Semaphore) (a a' : Action) (xs ys : List Action)
    → IsValid s
    → s.live ≡ xs ++ (a ∷ ys)
    → Returns a s.world.engine.max_conc a' m
    → (count holds (xs ++ (a' ∷ ys)) ≡ held_slots m) × WithinCapacity m
used s m a a' xs ys v split ret =
    let all : count holds (xs ++ (a ∷ ys)) ≡ held_slots s.world.engine.max_conc =
      ap (count holds) (sym split) ∙ v.counted in
    let (moved, within) = ret v.bounded (omega (arith, counts xs ys a, all)) in
    (omega (arith, counts xs ys a, counts xs ys a', all, moved), within)

-- Every step keeps the count of slots right and within the capacity.
pub Step-IsValid : {s t : System} → Step s t → IsValid s → IsValid t
Step-IsValid {s} {t} (evals c op e l) v =
    let (moved, within) = eval-slots c op s.world v.bounded in
    IsValid-of t _ _ (max_of t.world _ e) l (ground (arith, moved, v.counted), within)
Step-IsValid {s} {t} (befores c a xs ys split e l) v =
    IsValid-of t _ _ (max_of t.world _ e) l
      (used s _ a (before c a s.world).0 xs ys v split (before-Returns c a s.world))
Step-IsValid {s} {t} (afters a xs ys split e l) v =
    IsValid-of t _ _ (max_of t.world _ e) l
      (used s _ a (after a s.world).0 xs ys v split (after-Returns a s.world))
Step-IsValid {s} {t} (results a x e l) v =
    IsValid-of t _ _
      (max_of t.world _ e ∙ ap (λ (n : Engine). n.max_conc) (result-engine a x s.world)) l
      (v.counted, v.bounded)
Step-IsValid {s} {t} (outcomes a x e l) v =
    IsValid-of t _ _ (max_of t.world _ e ∙ outcome-max_conc a x s.world) l (v.counted, v.bounded)
Step-IsValid {s} {t} (admins x e l) v =
    IsValid-of t _ _ (max_of t.world _ e ∙ admin-max_conc x s.world.engine) l (v.counted, v.bounded)

-- No caller holds an action, and the semaphore is as `newSemaphore` makes it.
abbrev pub IsIdle : System → Type 0
IsIdle s = (s.live ≡ []) × (held_slots s.world.engine.max_conc ≡ 0)

idle-IsValid : (s : System) → IsIdle s → IsValid s
idle-IsValid s (none_live, free) = record {
  counted = ap (count holds) none_live ∙ sym free;
  bounded = within s.world.engine.max_conc free;
}
  where
    within : (m : Option Semaphore) → held_slots m ≡ 0 → WithinCapacity m
    within none h = tt
    within (some q) h = omega arith

Reach-IsValid : {s t : System} → IsIdle s → Reach s t → IsValid t
Reach-IsValid {s} idle here = idle-IsValid s idle
Reach-IsValid idle (next r st) = Step-IsValid st (Reach-IsValid idle r)

-- However concurrent calls interleave, the slots in use are exactly those of the actions that have
-- not been released, they never exceed the capacity, and an action that is about to release
-- finds its slot in the channel, so the receive never waits.
pub Reach-slots :
    {s t : System}
    → IsIdle s
    → Reach s t
    → (count holds t.live ≡ held_slots t.world.engine.max_conc)
      × WithinCapacity t.world.engine.max_conc
      × ((a : Action) (xs ys : List Action)
          → t.live ≡ xs ++ (a ∷ ys)
          → holds a ≡ true
          → 0 < held_slots t.world.engine.max_conc)
Reach-slots {s} {t} idle r =
    let v = Reach-IsValid idle r in
    (
      v.counted,
      v.bounded,
      λ a xs ys split h.
          let all = ap (count holds) (sym split) ∙ v.counted in
          ground (arith, counts xs ys a, all, h),
    )
