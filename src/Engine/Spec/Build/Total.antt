-- ===== src/Engine/Spec/Build/Total.antt =====
-- The panics of the options that `BuildRule` calls.
use chaotic.Base.{
  ◌≡◌, ◌≢◌, refl, ◌∙◌, false, if◌then◌else◌, List, [], ◌∷◌, ◌++◌, Option, none, some, Text,
  All-append, Bool-cases, inl, inr,
}
use mathlib.Core.Path.{subst}
use chaotic.Engine.Staged.{Stage, is_nil, validate_stages, validate_from}
use chaotic.Engine.Rule.{Rule, Store}
use chaotic.Engine.Rule.Options.{
  RuleOption, new_rule, blank_rule, apply_options, named, with_stages,
}
use chaotic.Engine.Spec.{RuleSpec, Library, SpecErr, Checked, ok, bad}
use chaotic.Engine.Spec.Faults.{build_fault_list}
use chaotic.Engine.Spec.Build.{
  build_match_options, build_counter_option, build_stage_options, fault_options, finish, assemble,
  with_stage_options, after_counter, build_rule, Built, built, invalid,
}
use chaotic.Engine.Spec.Build.Parts.{
  IsNamed, IsTotal, AreTotal, apply_options-IsTotal, build_match_options-total, IsSafe,
  build_counter_option-IsSafe, fault_options-total, append-nil_parts, build_stages-is_nil,
  build_stages-validate,
}

-- No panic: a rule of this name where there are no errors, or the errors.
abbrev pub Builds : Text → List SpecErr → Option Built → Type 0
Builds name errs none = ⊥
Builds name errs (some (built r s)) = (r.name ≡ name) × (errs ≡ [])
Builds name errs (some (invalid es)) = (es ≡ errs) × (is_nil errs ≡ false)

finish-Builds :
    (name : Text) (out : Option (Rule × Store)) → IsNamed [] out → Builds name [] (finish name out)
unfolding finish named
finish-Builds name none h = h
finish-Builds [] (some (r, s)) h = (h, refl)
finish-Builds (c ∷ name) (some (r, s)) h = (refl, refl)

assemble-Builds :
    (name : Text) (opts : List RuleOption) (errs : List SpecErr) (s : Store)
    → AreTotal opts
    → Builds name errs (assemble name opts errs s)
unfolding assemble new_rule blank_rule
assemble-Builds name opts (e ∷ errs) s t = (refl, refl)
assemble-Builds name opts [] s t =
    finish-Builds name (apply_options opts (blank_rule s).0 (blank_rule s).1)
      (apply_options-IsTotal opts t (blank_rule s).0 (blank_rule s).1)

with_stage_options-Builds :
    (name : Text) (opts : List RuleOption) (errs : List SpecErr) (stages : List Stage) (s : Store)
    → AreTotal opts
    → (errs ≡ [] → validate_stages stages ≡ none)
    → Builds name errs (with_stage_options name opts errs stages s)
unfolding with_stage_options with_stages
with_stage_options-Builds name opts (e ∷ errs) stages s t v =
    assemble-Builds name opts (e ∷ errs) s t
with_stage_options-Builds name opts [] stages s t v =
    rw (v refl, with_stages, with_stage_options)
      (assemble-Builds name _ [] _ (All-append IsTotal opts _ t (λ r s'. refl, tt)))

validate_stages-from :
    (ss : List Stage) → is_nil ss ≡ false → validate_stages ss ≡ validate_from 0 ss
unfolding validate_stages
validate_stages-from [] h = cc
validate_stages-from (s ∷ ss) h = refl

-- Where the whole list of errors is empty, the stages pass `validateStages`.
staged_validate :
    (std : Library) (spec : RuleSpec) (errs : List SpecErr)
    → is_nil spec.stages ≡ false
    → errs ++ (build_stage_options std spec).1 ≡ []
    → validate_stages (build_stage_options std spec).0 ≡ none
unfolding build_stage_options
staged_validate std spec errs staged h =
    let (_, serrs) = append-nil_parts errs _ h in
    let (_, rest) = append-nil_parts _ _ serrs in
    let (_, stages) = append-nil_parts _ _ rest in
    validate_stages-from _ (build_stages-is_nil std 0 spec.stages ∙ staged)
    ∙ build_stages-validate std 0 spec.stages stages

-- The errors of the faults and the stages, after those before them.
abbrev late_errors : Library → RuleSpec → List SpecErr → List SpecErr
late_errors std spec errs =
    let errs' = errs ++ (build_fault_list std spec.faults).1 in
    if is_nil spec.stages then errs' else errs' ++ (build_stage_options std spec).1

abbrev with_counter_error : List SpecErr → Option (Checked RuleOption) → List SpecErr
with_counter_error errs none = errs
with_counter_error errs (some (ok o)) = errs
with_counter_error errs (some (bad e)) = errs ++ e ∷ []

-- All errors of a spec, in the order of its parts: selectors, counter, faults, stages.
abbrev pub spec_errors : Library → RuleSpec → List SpecErr
spec_errors std spec =
    late_errors std spec
      (with_counter_error (build_match_options std spec).1 (build_counter_option std spec.counter))

after_counter-Builds :
    (std : Library) (spec : RuleSpec) (opts : List RuleOption) (errs : List SpecErr) (s : Store)
    → AreTotal opts
    → Builds spec.name (late_errors std spec errs) (after_counter std spec opts errs s)
unfolding after_counter
after_counter-Builds std spec opts errs s t = elim (Bool-cases (is_nil spec.stages)) [
  | inl flat ↦ rw flat (assemble-Builds spec.name _ _ s all)
  | inr staged ↦
      rw staged
        (with_stage_options-Builds spec.name _ _ _ s all (staged_validate std spec _ staged))
]
  where
    all : AreTotal (opts ++ fault_options (build_fault_list std spec.faults).0)
    all = All-append IsTotal opts _ t (fault_options-total (build_fault_list std spec.faults).0)

-- `BuildRule` gives a rule with the name of the spec where the spec has no errors, and otherwise all
-- of its errors at once, in the order of its parts; it does not panic.
pub build_rule-Builds :
    (std : Library) (spec : RuleSpec) (s : Store)
    → Builds spec.name (spec_errors std spec) (build_rule std spec s)
unfolding build_rule
build_rule-Builds std spec s =
    go (build_counter_option std spec.counter) (build_counter_option-IsSafe std spec.counter)
  where
    go :
        (o : Option (Checked RuleOption))
        → IsSafe o
        → Builds spec.name
            (late_errors std spec (with_counter_error (build_match_options std spec).1 o))
            (elim o [
              | none ↦ none
              | some (ok o') ↦
                  after_counter std spec
                    ((build_match_options std spec).0 ++ o' ∷ [])
                    (build_match_options std spec).1
                    s
              | some (bad e) ↦
                  after_counter std spec
                    (build_match_options std spec).0
                    ((build_match_options std spec).1 ++ e ∷ [])
                    s
            ])
    go none h = absurd h
    go (some (ok o')) h =
        after_counter-Builds std spec _ _ s
          (All-append IsTotal _ _ (build_match_options-total std spec) (h, tt))
    go (some (bad e)) h = after_counter-Builds std spec _ _ s (build_match_options-total std spec)

-- `BuildRule` is total: whatever the spec, no option that it uses panics, so it returns a rule or
-- its errors.
pub build_rule-total : (std : Library) (spec : RuleSpec) (s : Store) → build_rule std spec s ≢ none
build_rule-total std spec s h =
    subst (Builds spec.name (spec_errors std spec)) h (build_rule-Builds std spec s)
