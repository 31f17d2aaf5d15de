-- ===== src/Engine/Spec/Build/Sequence.antt =====
-- The rules that `BuildRule` (engine/spec.go) gives for a list of specs.
use chaotic.Base.{◌≡◌, List, [], ◌∷◌, some}
use chaotic.Engine.Rule.{Rule, Store}
use chaotic.Engine.Spec.{RuleSpec, Library}
use chaotic.Engine.Spec.Build.{built, build_rule}

-- Each rule is the one that `BuildRule` gives for its spec, on the store that the rule before left.
abbrev pub AreBuiltFrom : Library → List RuleSpec → Store → List Rule → Store → Type 0
AreBuiltFrom std [] s [] s' = s ≡ s'
AreBuiltFrom std [] s (r ∷ rs) s' = ⊥
AreBuiltFrom std (spec ∷ specs) s [] s' = ⊥
AreBuiltFrom std (spec ∷ specs) s (r ∷ rs) s' =
    (t : Store) × (build_rule std spec s ≡ some (built r t)) × AreBuiltFrom std specs t rs s'
