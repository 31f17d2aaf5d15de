-- ===== src/Engine/Spec/Build/Parts.antt =====
-- The options and the errors of the parts of a spec.
use chaotic.Base.{
  ℕ, suc, ◌≡◌, refl, Bool, true, false, if◌then◌else◌, pos, List, [], ◌∷◌, ◌++◌, Option, none, some,
  Text, Map, bytes, text_eq, All, All-append, arith, Float, below_float, above_float, one_scaled,
  Bool-cases, inl, inr,
}
use mathlib.Core.Path.{subst}
use chaotic.Fault.{Fault}
use chaotic.Engine.Op.{Kind}
use chaotic.Engine.Staged.{is_nil, validate_from}
use chaotic.Engine.Rule.{Rule, Store}
use chaotic.Engine.Rule.Options
use chaotic.Engine.Rule.Options.{
  RuleOption, new_rule, blank_rule, apply_options, named, match_kind, match_name, match_attr, times,
  range, probability, with_faults, with_stages, set_counter,
}
use chaotic.Engine.Spec.{RuleSpec, CounterSpec, StageSpec, Library, SpecErr, Checked, ok, bad}
use chaotic.Engine.Spec.Faults.{build_fault_list, is_empty}
use chaotic.Engine.Spec.Build.{
  build_kinds, kind_options, glob_options, attr_options, build_match_options, build_counter_option,
  build_stages, stage_errs, fault_options,
}

-- A rule of this name comes out.
abbrev pub IsNamed : Text → Option (Rule × Store) → Type 0
IsNamed name none = ⊥
IsNamed name (some (r, s)) = r.name ≡ name

-- The option does not panic, and keeps the name.
abbrev pub IsTotal : RuleOption → Type 0
IsTotal o = (r : Rule) (s : Store) → IsNamed r.name (o r s)

abbrev pub AreTotal : List RuleOption → Type 0
AreTotal = All IsTotal

after_option :
    (os : List RuleOption) (r : Rule) (out : Option (Rule × Store))
    → IsNamed r.name out
    → ((r' : Rule) (s' : Store) → IsNamed r'.name (apply_options os r' s'))
    → IsNamed r.name (elim out [ none ↦ none | some (r', s') ↦ apply_options os r' s' ])
after_option os r none h rest = h
after_option os r (some (r', s')) h rest =
    subst (λ n. IsNamed n (apply_options os r' s')) h (rest r' s')

pub apply_options-IsTotal : (os : List RuleOption) → AreTotal os → IsTotal (apply_options os)
unfolding apply_options
apply_options-IsTotal [] t r s = refl
apply_options-IsTotal (o ∷ os) t r s =
    after_option os r (o r s) (t.0 r s) (λ r' s'. apply_options-IsTotal os t.1 r' s')

attr_options-total : (m : Map Text) → AreTotal (attr_options m)
unfolding attr_options match_attr
attr_options-total [] = tt
attr_options-total ((k, v) ∷ m) = (λ r s. refl, attr_options-total m)

pub build_match_options-total :
    (std : Library) (spec : RuleSpec) → AreTotal (build_match_options std spec).0
unfolding build_match_options
build_match_options-total std spec = All-append IsTotal (kind_options ks) _ (kinds ks) (
    All-append IsTotal (glob_options std spec.name_glob) _ (glob spec.name_glob)
      (attr_options-total spec.attrs))
  where
    ks : List Kind
    ks = (build_kinds spec.kinds).0

    kinds : (l : List Kind) → AreTotal (kind_options l)
    kinds [] = tt
    kinds (k ∷ l) = (λ r s. unfold match_kind in refl, tt)

    glob : (g : Text) → AreTotal (glob_options std g)
    glob [] = tt
    glob (c ∷ g) = (λ r s. unfold match_name in refl, tt)

-- A counter option that is built without a panic, and does not panic.
abbrev pub IsSafe : Option (Checked RuleOption) → Type 0
IsSafe none = ⊥
IsSafe (some (ok o)) = IsTotal o
IsSafe (some (bad e)) = Unit {0}

IsSafe-if :
    (b : Bool) (x y : Option (Checked RuleOption))
    → IsSafe x
    → IsSafe y
    → IsSafe (if b then x else y)
IsSafe-if true x y h k = h
IsSafe-if false x y h k = k

prob_option-IsSafe :
    (p : Float) (draws : ℕ → ℕ) (e : SpecErr)
    → IsSafe (
        if below_float p (pos 0)
        then some (bad e)
        else if above_float p (pos one_scaled)
        then some (bad e)
        else elim (probability p draws) [ none ↦ none | some o ↦ some (ok o) ])
unfolding probability
prob_option-IsSafe p draws e = elim (Bool-cases (below_float p (pos 0))) [
  | inl low ↦ rw low tt
  | inr fits ↦ elim (Bool-cases (above_float p (pos one_scaled))) [
    | inl high ↦ rw (fits, high) tt
    | inr inside ↦ rw (fits, inside) (λ r s. unfold set_counter in refl)
  ]
]

pub build_counter_option-IsSafe :
    (std : Library) (c : CounterSpec) → IsSafe (build_counter_option std c)
unfolding build_counter_option Options.always times range set_counter
build_counter_option-IsSafe std c =
    IsSafe-if (is_empty c.type) _ _ (λ r s. refl)
      (IsSafe-if (text_eq c.type (bytes "always")) _ _ (λ r s. refl)
        (IsSafe-if (text_eq c.type (bytes "times")) _ _ (λ r s. refl)
          (IsSafe-if (text_eq c.type (bytes "range")) _ _ (λ r s. refl)
            (IsSafe-if (text_eq c.type (bytes "probability")) _ _
              (prob_option-IsSafe c.p (std.pcg c.seed) (SpecErr.probability_range c.p)) tt))))

pub fault_options-total : (fs : List Fault) → AreTotal (fault_options fs)
unfolding fault_options with_faults
fault_options-total [] = tt
fault_options-total (f ∷ fs) = (λ r s. refl, tt)

pub append-nil_parts : (xs ys : List SpecErr) → xs ++ ys ≡ [] → (xs ≡ []) × (ys ≡ [])
append-nil_parts [] ys h = (refl, h)
append-nil_parts (x ∷ xs) ys h = cc

pub build_stages-is_nil :
    (std : Library) (i : ℕ) (ss : List StageSpec) → is_nil (build_stages std i ss).0 ≡ is_nil ss
unfolding build_stages
build_stages-is_nil std i [] = refl
build_stages-is_nil std i (s ∷ rest) = refl

-- Stages that are built without an error pass `validateStages`.
pub build_stages-validate :
    (std : Library) (i : ℕ) (ss : List StageSpec)
    → (build_stages std i ss).1 ≡ []
    → validate_from i (build_stages std i ss).0 ≡ none
unfolding build_stages validate_from stage_errs
build_stages-validate std i [] h = refl
build_stages-validate std i (s ∷ rest) h =
    let (count, others) = append-nil_parts (stage_errs i (is_nil rest) s.times) _ h in
    let (faults, later) = append-nil_parts (build_fault_list std s.faults).1 _ others in
    ground (
      arith,
      count,
      build_stages-is_nil std (suc i) rest,
      build_stages-validate std (suc i) rest later,
    )
