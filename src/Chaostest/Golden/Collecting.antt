-- ===== src/Chaostest/Golden/Collecting.antt =====
-- What is collected of a rule's recorded events.
use chaotic.Base.{
  ℕ, ◌≡◌, ◌∙◌, refl, sym, ap, Bool, true, false, ◌&&◌, ◌||◌, if◌then◌else◌, ◌==◌, List, [], ◌∷◌,
  ◌++◌, Text, text_eq, text_eq_iff, Map, insert, lookup-insert, map, filter, any, arith, Bool-cases,
  inl, inr,
}
use chaotic.Engine.Rule.Options.{has_kind}
use chaotic.Engine.World.{is_nil}
use chaotic.Chaostest.Golden.{Event, ReplayAcc, observe_fault, observe, add_kind, acc_of, collect}

-- The recorded decisions of a rule, in order.
abbrev pub mask_of : Text → List Event → List Bool
mask_of name evs =
    map (λ (ev : Event). ev.fired) (filter (λ (ev : Event). text_eq ev.rule name) evs)

-- The rule was evaluated against an op of the kind.
abbrev pub meets : Text → ℕ → List Event → Bool
meets name k evs = any (λ (ev : Event). text_eq ev.rule name && k == ev.op.kind) evs

abbrev pub occurs : Text → List Event → Bool
occurs name evs = any (λ (ev : Event). text_eq ev.rule name) evs

has_kind-add_kind : (k j : ℕ) (ks : List ℕ) → has_kind (add_kind k ks) j ≡ (has_kind ks j || j == k)
unfolding has_kind
has_kind-add_kind k j ks = elim (Bool-cases (has_kind ks k)) [
  | inl old ↦ rw old (already ks old)
  | inr new ↦ rw new (at_end ks)
]
  where
    already : (xs : List ℕ) → has_kind xs k ≡ true → has_kind xs j ≡ (has_kind xs j || j == k)
    already [] h = cc
    already (x ∷ xs) h = ground (arith, h, already xs)

    at_end : (xs : List ℕ) → has_kind (xs ++ k ∷ []) j ≡ (has_kind xs j || j == k)
    at_end [] = ground arith
    at_end (x ∷ xs) = ground (arith, at_end xs)

observe_fault-kept :
    (ev : Event) (a : ReplayAcc)
    → ((observe_fault ev a).mask ≡ a.mask) × ((observe_fault ev a).order ≡ a.order)
unfolding observe_fault
observe_fault-kept ev a = ground arith

-- One event in the accumulators.
abbrev pub step : Event → Map ReplayAcc → Map ReplayAcc
step ev accs =
    if is_nil ev.rule then accs else insert ev.rule (observe ev (acc_of ev.rule accs)) accs

pub acc_of-step :
    (name : Text) (ev : Event) (accs : Map ReplayAcc)
    → is_nil name ≡ false
    → acc_of name (step ev accs)
      ≡ (if text_eq ev.rule name then observe ev (acc_of name accs) else acc_of name accs)
unfolding acc_of
acc_of-step name ev accs h = ground (
  arith,
  h,
  text_eq_iff ev.rule name,
  lookup-insert ev.rule name (observe ev (acc_of ev.rule accs)) accs,
)

observe-mask : (ev : Event) (a : ReplayAcc) → (observe ev a).mask ≡ a.mask ++ ev.fired ∷ []
unfolding observe
observe-mask ev a = (observe_fault-kept ev _).0

observe-has_kind :
    (ev : Event) (a : ReplayAcc) (k : ℕ)
    → has_kind (observe ev a).order k ≡ (has_kind a.order k || k == ev.op.kind)
unfolding observe
observe-has_kind ev a k =
    ap (λ ks. has_kind ks k) (observe_fault-kept ev _).1 ∙ has_kind-add_kind ev.op.kind k a.order

append_assoc : (xs ys zs : List Bool) → (xs ++ ys) ++ zs ≡ xs ++ (ys ++ zs)
append_assoc [] ys zs = refl
append_assoc (x ∷ xs) ys zs = ap (λ l. x ∷ l) (append_assoc xs ys zs)

append_nil : (xs : List Bool) → xs ++ [] ≡ xs
append_nil [] = refl
append_nil (x ∷ xs) = ap (λ l. x ∷ l) (append_nil xs)

-- The accumulator of a rule has its decisions and its kinds.
abbrev Collects : Text → List Event → ReplayAcc → ReplayAcc → Type 0
Collects name evs a b =
    (b.mask ≡ a.mask ++ mask_of name evs)
    × ((k : ℕ) → has_kind b.order k ≡ (has_kind a.order k || meets name k evs))

pub collect-Collects :
    (name : Text) (evs : List Event) (accs : Map ReplayAcc)
    → is_nil name ≡ false
    → Collects name evs (acc_of name accs) (acc_of name (collect evs accs))
unfolding collect
collect-Collects name [] accs h = (sym (append_nil (acc_of name accs).mask), λ k. ground arith)
collect-Collects name (ev ∷ evs) accs h =
    let (masks, kinds) = collect-Collects name evs (step ev accs) h in
    elim (Bool-cases (text_eq ev.rule name)) [
      | inl own ↦
          let stepped : acc_of name (step ev accs) ≡ observe ev (acc_of name accs) =
            acc_of-step name ev accs h ∙ rw own refl in
          (
            masks
                ∙ ap (λ (a : ReplayAcc). a.mask ++ mask_of name evs) stepped
                ∙ ap (λ l. l ++ mask_of name evs) (observe-mask ev (acc_of name accs))
                ∙ append_assoc (acc_of name accs).mask (ev.fired ∷ []) (mask_of name evs)
                ∙ rw own refl,
            λ k.
                kinds k
                ∙ ap (λ (a : ReplayAcc). has_kind a.order k || meets name k evs) stepped
                ∙ ground (arith, own, observe-has_kind ev (acc_of name accs) k),
          )
      | inr other ↦
          let stepped : acc_of name (step ev accs) ≡ acc_of name accs =
            acc_of-step name ev accs h ∙ rw other refl in
          (
            masks ∙ ap (λ (a : ReplayAcc). a.mask ++ mask_of name evs) stepped ∙ rw other refl,
            λ k.
                kinds k
                ∙ ap (λ (a : ReplayAcc). has_kind a.order k || meets name k evs) stepped
                ∙ ground (arith, other),
          )
    ]
