-- ===== src/Engine/Action/Faults.antt =====
-- The fault chain of an action: how far it runs, and what it leaves behind.
use chaotic.Base.{
  ◌≡◌, ◌≢◌, ◌⊎◌, inl, inr, refl, sym, ap, ◌∙◌, List, [], ◌∷◌, ◌++◌, none, some, arith,
}
use chaotic.Fault.{Fault, Context, Cells, Outcome, returned, panicked, apply}
use chaotic.Engine.World.{World, RuleAction}
use chaotic.Engine.Action.{run_faults, rule_before, notify_injected}

-- The cells after the faults have been applied one by one, whatever they return.
pub apply_all : Context → List Fault → Cells → Cells
apply_all c [] s = s
apply_all c (f ∷ fs) s = apply_all c fs (apply c f s).cells

-- All faults return nil, each on the cells that those before it leave.
pub AllPass : Context → List Fault → Cells → Type 0
AllPass c [] s = Unit {0}
AllPass c (f ∷ fs) s = ((apply c f s).outcome ≡ returned none) × AllPass c fs (apply c f s).cells

notify_injected-cells :
    (a : RuleAction) (f : Fault) (w : World) → (notify_injected a f w).cells ≡ w.cells
unfolding notify_injected
notify_injected-cells a f w = ground arith

Outcome-cases : (o : Outcome) → (o ≡ returned none) ⊎ (o ≢ returned none)
Outcome-cases (returned none) = inl refl
Outcome-cases (returned (some e)) = inr (λ h. cc)
Outcome-cases (panicked v) = inr (λ h. cc)

-- The world in which the rest of the chain runs after the fault `f` has returned nil.
abbrev next_world : Context → RuleAction → Fault → World → World
next_world c a f w = notify_injected a f (record w { cells = (apply c f w.cells).cells })

run_faults_next :
    (c : Context) (a : RuleAction) (f : Fault) (fs : List Fault) (w : World)
    → (apply c f w.cells).outcome ≡ returned none
    → ((run_faults c a (f ∷ fs) w).0 ≡ (run_faults c a fs (next_world c a f w)).0)
      × ((run_faults c a (f ∷ fs) w).1 ≡ (run_faults c a fs (next_world c a f w)).1)
unfolding run_faults
run_faults_next c a f fs w h = (rw (h, run_faults), rw (h, run_faults))

run_faults_stop :
    (c : Context) (a : RuleAction) (f : Fault) (fs : List Fault) (w : World)
    → (apply c f w.cells).outcome ≢ returned none
    → ((run_faults c a (f ∷ fs) w).0.cells ≡ (apply c f w.cells).cells)
      × ((run_faults c a (f ∷ fs) w).1 ≡ (apply c f w.cells).outcome)
run_faults_stop c a f fs w h = unfold run_faults in ground arith

-- How a chain of faults ends, on the cells `s`, with the outcome `o` and the cells `t`: it returns
-- nil if all faults do; otherwise it ends as the first fault does that does not return nil, when
-- those before it, and no other, have been applied.
abbrev pub EndsAs : Context → List Fault → Cells → Outcome → Cells → Type 0
EndsAs c fs s o t =
    AllPass c fs s × (o ≡ returned none) × (t ≡ apply_all c fs s)
    ⊎ ((before : List Fault) × (f : Fault) × (after : List Fault) × (fs ≡ before ++ (f ∷ after))
        × AllPass c before s
        × (o ≢ returned none)
        × (o ≡ (apply c f (apply_all c before s)).outcome)
        × (t ≡ (apply c f (apply_all c before s)).cells))

EndsAs-next :
    (c : Context) (f : Fault) (fs : List Fault) (s : Cells) (o : Outcome) (t : Cells)
    → (apply c f s).outcome ≡ returned none
    → EndsAs c fs (apply c f s).cells o t
    → EndsAs c (f ∷ fs) s o t
unfolding AllPass apply_all
EndsAs-next c f fs s o t first (inl (all, nil, cells)) = inl ((first, all), nil, cells)
EndsAs-next c f fs s o t first (inr (before, g, after, split, all, stops, ends, cells)) =
    inr (f ∷ before, g, after, ap (◌∷◌ f) split, (first, all), stops, ends, cells)

run_faults-EndsAs :
    (c : Context) (a : RuleAction) (fs : List Fault) (w : World) (s : Cells)
    → w.cells ≡ s
    → EndsAs c fs s (run_faults c a fs w).1 (run_faults c a fs w).0.cells
unfolding AllPass apply_all
run_faults-EndsAs c a [] w s e = inl (tt, unfold run_faults in refl, unfold run_faults in e)
run_faults-EndsAs c a (f ∷ fs) w s e = elim (Outcome-cases (apply c f w.cells).outcome) [
  | inr stops ↦
      let (cells, o) = run_faults_stop c a f fs w stops in
      inr (
        [],
        f,
        fs,
        refl,
        tt,
        rw o stops,
        o ∙ ap (λ t. (apply c f t).outcome) e,
        cells ∙ ap (λ t. (apply c f t).cells) e,
      )
  | inl goes ↦
      let (w', o) = run_faults_next c a f fs w goes in
      let rest =
        run_faults-EndsAs c a fs (next_world c a f w) (apply c f s).cells
          (notify_injected-cells a f _ ∙ ap (λ t. (apply c f t).cells) e) in
      let first : (apply c f s).outcome ≡ returned none =
        ap (λ t. (apply c f t).outcome) (sym e) ∙ goes in
      rw (w', o) (EndsAs-next c f fs s _ _ first rest)
]

-- `Before` of a fired rule applies its faults in order and returns nil if all of them do; otherwise
-- it stops at the first that does not, and ends as that one does.
pub rule_before-EndsAs :
    (c : Context) (a : RuleAction) (w : World)
    → let (a', w', o) = rule_before c a w in EndsAs c a.faults w.cells o w'.cells
rule_before-EndsAs c a w =
    rw rule_before_outcome (rw rule_before_cells (run_faults-EndsAs c a a.faults w w.cells refl))
  where
    rule_before_outcome : (rule_before c a w).2 ≡ (run_faults c a a.faults w).1
    rule_before_outcome = unfold rule_before in ground arith

    rule_before_cells : (rule_before c a w).1.cells ≡ (run_faults c a a.faults w).0.cells
    rule_before_cells = unfold rule_before in ground arith
