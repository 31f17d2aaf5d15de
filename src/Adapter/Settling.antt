-- ===== src/Adapter/Settling.antt =====
-- What every intercepted call leaves behind.
use chaotic.Base.{
  ◌≡◌, ◌∙◌, ◌⊎◌, refl, sym, ap, Bool, true, false, Option, none, some, is_some, arith, Bool-cases,
  inl, inr,
}
use chaotic.Fault.{Err, Outcome, returned, panicked}
use chaotic.Engine.Op.{Op}
use chaotic.Engine.Budget.{Budget}
use chaotic.Engine.Rule.{Call}
use chaotic.Engine.World.{World, Action, enabled}
use chaotic.Engine.Action.Slots.{held_slots, WithinCapacity}
use chaotic.Adapter.Reporting.{Begun, begin-Begun, Begun-report, record_in}
use chaotic.Adapter.{
  CallErr, Ended, ends, panics, proceed, pass_engine, intercept_with, intercept, intercept_value,
  Returned, has_failed, as_it_is,
}

-- The budget after a method that ends so, of an engine that was enabled or not.
abbrev pub budget_after : {R : Type 0} → Bool → (R → Bool) → Ended R → Option Budget → Option Budget
budget_after false failed r b = b
budget_after true failed (ends r) b = record_in (failed r) b
budget_after true failed (panics v) b = b

module _ {S R : Type 0} where
  -- The real call was made once and its result kept; or an injected error or a panic took its place.
  abbrev pub Delegates : (Err → R) → (R → R → Type 0) → (S → S × R) → S → S → Ended R → Type 0
  Delegates fails Kept inner s s' (ends r) =
      (s' ≡ (inner s).0) × Kept (inner s).1 r ⊎ (s' ≡ s) × ((e : Err) × (r ≡ fails e))
  Delegates fails Kept inner s s' (panics v) = s' ≡ s

  -- A method leaves as many slots in use as before it, has recorded one outcome, that of the result
  -- which its caller sees, and made the real call at most once.
  abbrev pub Settles :
      (Err → R)
      → (R → Bool)
      → (R → R → Type 0)
      → (S → S × R)
      → World
      → S
      → World × S × Ended R
      → Type 0
  Settles fails failed Kept inner w s (w', s', r) =
      (held_slots w'.engine.max_conc ≡ held_slots w.engine.max_conc)
      × WithinCapacity w'.engine.max_conc
      × (w'.engine.budget ≡ budget_after (enabled w.engine) failed r w.engine.budget)
      × Delegates fails Kept inner s s' r

module _ {S R : Type 0} (fails : Err → R) (failed : R → Bool) (Kept : R → R → Type 0)
    (finish : Action → R → World → World × R) (inner : S → S × R)
    (fails-failed : (e : Err) → failed (fails e) ≡ true)
    (finish-engine : (a : Action) (r : R) (w : World) → (finish a r w).0.engine ≡ w.engine)
    (finish-failed : (a : Action) (r : R) (w : World) → failed (finish a r w).1 ≡ failed r)
    (finish-Kept : (a : Action) (r : R) (w : World) → Kept r (finish a r w).1) where
  proceed-Settles :
      (w : World) (a : Action) (w1 : World) (s : S) (o : Outcome)
      → Begun w a w1 o
      → let (w', s', r) = proceed fails failed finish inner a w1 s o in
        (held_slots w'.engine.max_conc ≡ held_slots w.engine.max_conc)
        × WithinCapacity w'.engine.max_conc
        × (w'.engine.budget ≡ budget_after true failed r w.engine.budget)
        × Delegates fails Kept inner s s' r
  unfolding proceed
  proceed-Settles w a w1 s (panicked v) b =
      (omega (arith, b.slots, b.free refl), b.within, b.budget, refl)
  proceed-Settles w a w1 s (returned (some e)) b =
      let (slots, within, budget) = Begun-report w a w1 w1 _ true b refl in
      (
        slots,
        within,
        budget ∙ ap (λ x. record_in x w.engine.budget) (sym (fails-failed e)),
        inr (refl, (e, refl)),
      )
  proceed-Settles w a w1 s (returned none) b =
      let r = (inner s).1 in
      let (slots, within, budget) =
        Begun-report w a w1 (finish a r w1).0 _ (failed r) b (finish-engine a r w1) in
      (
        slots,
        within,
        budget ∙ ap (λ x. record_in x w.engine.budget) (sym (finish-failed a r w1)),
        inl (refl, finish-Kept a r w1),
      )

  pub intercept_with-Settles :
      (c : Call) (op : Op) (w : World) (s : S)
      → WithinCapacity w.engine.max_conc
      → Kept (inner s).1 (inner s).1
      → Settles fails failed Kept inner w s (intercept_with fails failed finish inner c op w s)
  unfolding intercept_with
  intercept_with-Settles c op w s h k = elim (Bool-cases (enabled w.engine)) [
    | inl on ↦
        rw (Settles, on) (unfold pass_engine in proceed-Settles w _ _ s _ (begin-Begun c op w on h))
    | inr off ↦ rw (Settles, off) (refl, h, refl, inl (refl, k))
  ]

-- For a method that returns an error only, and for one with a value.
abbrev pub SettlesError :
    {S : Type 0}
    → (Err → CallErr)
    → (S → S × Option CallErr)
    → World
    → S
    → World × S × Ended (Option CallErr)
    → Type 0
SettlesError map_err inner = Settles (λ e. some (map_err e)) is_some (λ r r'. r ≡ r') inner

abbrev pub SettlesValue :
    {S V : Type 0}
    → (Err → CallErr)
    → (S → S × Returned V)
    → World
    → S
    → World × S × Ended (Returned V)
    → Type 0
SettlesValue map_err inner =
    Settles (λ e. (none, some (map_err e))) has_failed (λ r r'. r ≡ r') inner

pub intercept-Settles :
    {S : Type 0} (map_err : Err → CallErr) (inner : S → S × Option CallErr) (c : Call) (op : Op)
    (w : World) (s : S)
    → WithinCapacity w.engine.max_conc
    → SettlesError map_err inner w s (intercept map_err inner c op w s)
unfolding intercept
intercept-Settles map_err inner c op w s h =
    intercept_with-Settles (λ e. some (map_err e)) is_some (λ r r'. r ≡ r') as_it_is inner
      (λ e. refl) (λ a r w. refl) (λ a r w. refl) (λ a r w. refl) c op w s h refl

pub intercept_value-Settles :
    {S V : Type 0} (map_err : Err → CallErr) (inner : S → S × Returned V) (c : Call) (op : Op)
    (w : World) (s : S)
    → WithinCapacity w.engine.max_conc
    → SettlesValue map_err inner w s (intercept_value map_err inner c op w s)
unfolding intercept_value
intercept_value-Settles map_err inner c op w s h =
    intercept_with-Settles (λ e. (none, some (map_err e))) has_failed (λ r r'. r ≡ r') as_it_is
      inner (λ e. refl) (λ a r w. refl) (λ a r w. refl) (λ a r w. refl) c op w s h refl
