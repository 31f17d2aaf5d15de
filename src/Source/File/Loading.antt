-- ===== src/Source/File/Loading.antt =====
-- Which documents load, and with which rules.
use chaotic.Base.{
  ◌≡◌, ◌≢◌, refl, Bool, true, false, not, ◌&&◌, ◌||◌, if◌then◌else◌, List, [], ◌∷◌, Option, none,
  some, Text, text_eq, text_eq_iff, any, map, arith, Bool-cases, inl, inr,
}
use chaotic.Engine.Rule.{Rule, Store}
use chaotic.Engine.World.{is_nil}
use chaotic.Engine.Spec.{RuleSpec, Library}
use chaotic.Engine.Spec.Build.{Built, built, invalid, build_rule}
use chaotic.Engine.Spec.Build.Sequence.{AreBuiltFrom}
use chaotic.Engine.Spec.Build.Total.{spec_errors, Builds, build_rule-Builds}
use chaotic.Engine.Lint.{Report, LintMode, lint_gate}
use chaotic.Engine.Lint.Strict.{is_hazard, is_reject, lint_gate-rejects}
use chaotic.Source.File.{
  Loaded, loaded, fails, malformed, refused, panicked, seen_before, is_duplicate, add_seen,
  add_rule, build_rules, gate_specs, parse, load,
}

abbrev pub name_of : RuleSpec → Text
name_of spec = spec.name

-- A later spec has the name, which is not empty.
abbrev pub comes_again : Text → List RuleSpec → Bool
comes_again name specs =
    not (is_nil name) && any (λ (spec : RuleSpec). text_eq spec.name name) specs

abbrev pub repeats_name : List RuleSpec → Bool
repeats_name [] = false
repeats_name (spec ∷ specs) = comes_again spec.name specs || repeats_name specs

abbrev pub has_errors : Library → RuleSpec → Bool
has_errors std spec = not (is_nil (spec_errors std spec))

-- The names are new and distinct, and the specs have no errors.
abbrev is_clean : Library → List Text → List RuleSpec → Bool
is_clean std seen specs =
    not (any (λ (spec : RuleSpec). is_duplicate spec.name seen) specs)
    && (not (repeats_name specs) && not (any (has_errors std) specs))

any-add_seen :
    (name : Text) (seen : List Text) (specs : List RuleSpec)
    → any (λ (spec : RuleSpec). is_duplicate spec.name (add_seen name seen)) specs
      ≡ comes_again name specs || any (λ (spec : RuleSpec). is_duplicate spec.name seen) specs
unfolding is_duplicate add_seen seen_before
any-add_seen name seen [] = ground arith
any-add_seen name seen (spec ∷ specs) =
    ground (arith, any-add_seen name seen specs, text_eq_iff spec.name name)

-- The rules that the specs, which are clean, ask for: they have the specs' names, in order, and are
-- those that `BuildRule` gives.
abbrev pub AreOf : Library → List RuleSpec → Store → List Rule → Store → Type 0
AreOf std specs s rs s' =
    (map (λ (r : Rule). r.name) rs ≡ map name_of specs) × AreBuiltFrom std specs s rs s'

-- The rules of clean specs, in order; or an error, which is no panic.
abbrev Loads : Library → List Text → List RuleSpec → Store → Loaded → Type 0
Loads std seen specs s (loaded rs s') = (is_clean std seen specs ≡ true) × AreOf std specs s rs s'
Loads std seen specs s (fails e) = (is_clean std seen specs ≡ false) × (e ≢ panicked)

add_rule-Loads :
    (std : Library) (seen : List Text) (spec : RuleSpec) (specs : List RuleSpec) (r : Rule)
    (s t : Store) (out : Loaded)
    → build_rule std spec s ≡ some (built r t)
    → is_duplicate spec.name seen ≡ false
    → r.name ≡ spec.name
    → spec_errors std spec ≡ []
    → Loads std (add_seen spec.name seen) specs t out
    → Loads std seen (spec ∷ specs) s (add_rule r out)
unfolding add_rule
add_rule-Loads std seen spec specs r s t (loaded rs s') b d n e h = (
  ground (arith, d, e, h.0, any-add_seen spec.name seen specs),
  (rw (n, h.1.0) refl, (t, b, h.1.1)),
)
add_rule-Loads std seen spec specs r s t (fails x) b d n e h =
    (ground (arith, d, e, h.0, any-add_seen spec.name seen specs), h.1)

build_rules-Loads :
    (std : Library) (seen : List Text) (specs : List RuleSpec) (s : Store)
    → Loads std seen specs s (build_rules std seen specs s)
unfolding build_rules
build_rules-Loads std seen [] s = (refl, (refl, refl))
build_rules-Loads std seen (spec ∷ specs) s = elim (Bool-cases (is_duplicate spec.name seen)) [
  | inl again ↦ rw (Loads, again) (ground (arith, again), λ e. cc)
  | inr fresh ↦
      rw (Loads, fresh)
        (go (build_rule std spec s) refl (build_rule-Builds std spec s)
          (λ s'. build_rules-Loads std (add_seen spec.name seen) specs s') fresh)
]
  where
    go :
        (o : Option Built)
        → build_rule std spec s ≡ o
        → Builds spec.name (spec_errors std spec) o
        → ((s' : Store)
            → Loads std
                (add_seen spec.name seen)
                specs
                s'
                (build_rules std (add_seen spec.name seen) specs s'))
        → is_duplicate spec.name seen ≡ false
        → Loads std seen (spec ∷ specs) s (elim o [
          | none ↦ fails panicked
          | some (invalid errs) ↦ fails (refused spec.name errs)
          | some (built r s') ↦ add_rule r (build_rules std (add_seen spec.name seen) specs s')
        ])
    go none e b rest fresh = absurd b
    go (some (invalid errs)) e b rest fresh = (ground (arith, b.1, fresh), λ x. cc)
    go (some (built r s')) e b rest fresh =
        add_rule-Loads std seen spec specs r s s' _ e fresh b.0 b.1 (rest s')

-- The specs that a file gives, where it is to be loaded: it can be read and decoded, the lint does
-- not reject it, no name comes twice, and every spec builds.
unfoldable pub admitted :
    Library → (Text → Option (List RuleSpec)) → LintMode → Option Text → Option (List RuleSpec)
admitted std unmarshal lint none = none
admitted std unmarshal lint (some doc) = elim (unmarshal doc) [
  | none ↦ none
  | some specs ↦
      if is_reject lint && any is_hazard specs
      then none
      else if repeats_name specs || any (has_errors std) specs
      then none
      else some specs
]

-- The rules of the admitted specs; or an error, which is no panic, where none are admitted.
abbrev pub Agrees : Library → Store → Option (List RuleSpec) → Loaded → Type 0
Agrees std s none (loaded rs s') = ⊥
Agrees std s none (fails e) = e ≢ panicked
Agrees std s (some specs) (loaded rs s') = AreOf std specs s rs s'
Agrees std s (some specs) (fails e) = ⊥

no_seen :
    (specs : List RuleSpec) → any (λ (spec : RuleSpec). is_duplicate spec.name []) specs ≡ false
unfolding is_duplicate seen_before
no_seen [] = refl
no_seen (spec ∷ specs) = ground (arith, no_seen specs)

built-Agrees :
    (std : Library) (specs : List RuleSpec) (s : Store) (out : Loaded)
    → Loads std [] specs s out
    → Agrees std s
        (if repeats_name specs || any (has_errors std) specs then none else some specs)
        out
built-Agrees std specs s out h = go out (repeats_name specs || any (has_errors std) specs) refl h
  where
    go :
        (o : Loaded) (b : Bool)
        → repeats_name specs || any (has_errors std) specs ≡ b
        → Loads std [] specs s o
        → Agrees std s (if b then none else some specs) o
    go (loaded rs s') true e k = ground (arith, e, k.0)
    go (loaded rs s') false e k = k.1
    go (fails x) true e k = k.1
    go (fails x) false e k = absurd (ground (arith, e, k.0, no_seen specs))

gated :
    (std : Library) (lint : LintMode) (s : Store) (specs : List RuleSpec) (verdict : Report × Bool)
    → verdict.1 ≡ is_reject lint && any is_hazard specs
    → Agrees std s
        (if is_reject lint && any is_hazard specs
          then none
          else if repeats_name specs || any (has_errors std) specs
          then none
          else some specs)
        (gate_specs std specs s verdict)
unfolding gate_specs
gated std lint s specs (rep, true) h = rw⁻¹ h (λ e. cc)
gated std lint s specs (rep, false) h =
    rw⁻¹ h
      (built-Agrees std specs s (build_rules std [] specs s) (build_rules-Loads std [] specs s))

-- A file loads exactly when it is to be loaded, and then gives the rules of its specs, in their order
-- and with their names, each as `BuildRule` gives it; no load panics.
pub load-Agrees :
    (std : Library) (unmarshal : Text → Option (List RuleSpec)) (lint : LintMode)
    (content : Option Text) (s : Store)
    → Agrees std s (admitted std unmarshal lint content) (load std unmarshal lint content s)
unfolding load admitted
load-Agrees std unmarshal lint none s = λ e. cc
load-Agrees std unmarshal lint (some doc) s = unfold parse in go (unmarshal doc)
  where
    go :
        (o : Option (List RuleSpec))
        → Agrees std s
            (elim o [
              | none ↦ none
              | some specs ↦
                  if is_reject lint && any is_hazard specs
                  then none
                  else if repeats_name specs || any (has_errors std) specs
                  then none
                  else some specs
            ])
            (elim o [
              | none ↦ fails malformed
              | some specs ↦ gate_specs std specs s (lint_gate std.parse_duration lint specs)
            ])
    go none = λ e. cc
    go (some specs) =
        gated std lint s specs (lint_gate std.parse_duration lint specs)
          (lint_gate-rejects std.parse_duration lint specs)
