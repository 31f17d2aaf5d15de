-- ===== src/Engine/Lint/Strict.antt =====
-- Which rule sets the linter rejects.
use chaotic.Base.{
  Bool, true, false, not, ◌&&◌, ◌||◌, ◌≡◌, refl, ◌∙◌, ℤ, List, [], ◌∷◌, ◌++◌, Option, none, some,
  Text, Map, any, arith, insert,
}
use chaotic.Engine.Spec.{RuleSpec, FaultSpec, StageSpec}
use chaotic.Engine.Lint.{
  Report, LintMode, lint_reject, is_ok, is_broad, is_terminal_fault_type, lint_fault,
  latency_finding, spec_latency, lint_flat_fault, lint_flat_faults, lint_faults, lint_stages,
  permanent, lint_final_stage, lint_spec, lint_overlaps, lint_each, lint_specs, lint_gate,
  lint_name, spec_signature, lint_wildcard, lint_probability,
}

abbrev pub has_terminal : List FaultSpec → Bool
has_terminal = any λ fs. is_terminal_fault_type fs.type

-- The spec reaches every operation, and injects a panic or a dropped connection, now or in a stage.
abbrev pub is_hazard : RuleSpec → Bool
is_hazard s = is_broad s && (has_terminal s.faults || any (λ st. has_terminal st.faults) s.stages)

is_ok-append : (xs ys : Report) → is_ok (xs ++ ys) ≡ is_ok xs && is_ok ys
unfolding is_ok
is_ok-append [] ys = ground arith
is_ok-append (f ∷ xs) ys = ground (arith, is_ok-append xs ys)

module _ (parse_duration : Text → Option ℤ) (name : Text) where
  is_ok-latency : (d : Option ℤ) → is_ok (latency_finding name d) ≡ true
  unfolding latency_finding is_ok
  is_ok-latency none = refl
  is_ok-latency (some d) = ground arith

  is_ok-lint_fault :
      (broad : Bool) (fs : FaultSpec)
      → is_ok (lint_fault parse_duration name broad fs)
        ≡ not (broad && is_terminal_fault_type fs.type)
  is_ok-lint_fault broad fs =
      unfold lint_fault in
      (is_ok-append (latency_finding name (spec_latency parse_duration fs)) _
        ∙ rw (is_ok-latency (spec_latency parse_duration fs)) (unfold is_ok in ground arith))

  is_ok-lint_flat_fault :
      (broad : Bool) (fs : FaultSpec)
      → is_ok (lint_flat_fault parse_duration name broad fs)
        ≡ not (broad && is_terminal_fault_type fs.type)
  is_ok-lint_flat_fault broad fs =
      unfold lint_flat_fault is_ok in ground (arith, is_ok-lint_fault broad fs)

  is_ok-lint_flat_faults :
      (broad : Bool) (fs : List FaultSpec)
      → is_ok (lint_flat_faults parse_duration name broad fs) ≡ not (broad && has_terminal fs)
  unfolding lint_flat_faults
  is_ok-lint_flat_faults broad [] = unfold is_ok in ground arith
  is_ok-lint_flat_faults broad (f ∷ fs) = ground (
    arith,
    is_ok-append (lint_flat_fault parse_duration name broad f)
        (lint_flat_faults parse_duration name broad fs),
    is_ok-lint_flat_fault broad f,
    is_ok-lint_flat_faults broad fs,
  )

  is_ok-lint_faults :
      (broad : Bool) (fs : List FaultSpec)
      → is_ok (lint_faults parse_duration name broad fs) ≡ not (broad && has_terminal fs)
  unfolding lint_faults
  is_ok-lint_faults broad [] = unfold is_ok in ground arith
  is_ok-lint_faults broad (f ∷ fs) = ground (
    arith,
    is_ok-append (lint_fault parse_duration name broad f)
        (lint_faults parse_duration name broad fs),
    is_ok-lint_fault broad f,
    is_ok-lint_faults broad fs,
  )

  is_ok-lint_stages :
      (broad : Bool) (ss : List StageSpec)
      → is_ok (lint_stages parse_duration name broad ss)
        ≡ not (broad && any (λ st. has_terminal st.faults) ss)
  unfolding lint_stages
  is_ok-lint_stages broad [] = unfold is_ok in ground arith
  is_ok-lint_stages broad (st ∷ ss) = ground (
    arith,
    is_ok-append (lint_faults parse_duration name broad st.faults)
        (lint_stages parse_duration name broad ss),
    is_ok-lint_faults broad st.faults,
    is_ok-lint_stages broad ss,
  )

is_ok-permanent : (name : Text) (fs : List FaultSpec) → is_ok (permanent name fs) ≡ true
unfolding permanent is_ok
is_ok-permanent name [] = refl
is_ok-permanent name (f ∷ fs) = ground (arith, is_ok-permanent name fs)

is_ok-lint_final_stage :
    (name : Text) (ss : List StageSpec) → is_ok (lint_final_stage name ss) ≡ true
unfolding lint_final_stage
is_ok-lint_final_stage name [] = unfold is_ok in refl
is_ok-lint_final_stage name (st ∷ []) =
    unfold is_ok in ground (arith, is_ok-permanent name st.faults)
is_ok-lint_final_stage name (st ∷ (next ∷ rest)) = is_ok-lint_final_stage name (next ∷ rest)

is_ok-lint_overlaps :
    (first : Map Text) (specs : List RuleSpec) → is_ok (lint_overlaps first specs) ≡ true
unfolding lint_overlaps is_ok
is_ok-lint_overlaps first [] = refl
is_ok-lint_overlaps first (s ∷ rest) = ground (
  arith,
  is_ok-lint_overlaps first rest,
  is_ok-lint_overlaps (insert (spec_signature s) (lint_name s.name) first) rest,
)

is_ok-lint_wildcard : (s : RuleSpec) → is_ok (lint_wildcard s) ≡ true
unfolding lint_wildcard is_ok
is_ok-lint_wildcard s = ground arith

is_ok-lint_probability : (s : RuleSpec) → is_ok (lint_probability s) ≡ true
unfolding lint_probability is_ok
is_ok-lint_probability s = ground arith

is_ok-lint_spec :
    (parse_duration : Text → Option ℤ) (s : RuleSpec)
    → is_ok (lint_spec parse_duration s) ≡ not (is_hazard s)
is_ok-lint_spec parse_duration s =
    unfold lint_spec in
    ground (
      arith,
      is_ok-append (lint_wildcard s) (
          lint_probability s
          ++ (lint_flat_faults parse_duration (lint_name s.name) (is_broad s) s.faults
              ++ (lint_stages parse_duration (lint_name s.name) (is_broad s) s.stages
                  ++ lint_final_stage (lint_name s.name) s.stages))),
      is_ok-append (lint_probability s) (
          lint_flat_faults parse_duration (lint_name s.name) (is_broad s) s.faults
          ++ (lint_stages parse_duration (lint_name s.name) (is_broad s) s.stages
              ++ lint_final_stage (lint_name s.name) s.stages)),
      is_ok-append (lint_flat_faults parse_duration (lint_name s.name) (is_broad s) s.faults) (
          lint_stages parse_duration (lint_name s.name) (is_broad s) s.stages
          ++ lint_final_stage (lint_name s.name) s.stages),
      is_ok-append (lint_stages parse_duration (lint_name s.name) (is_broad s) s.stages)
          (lint_final_stage (lint_name s.name) s.stages),
      is_ok-lint_wildcard s,
      is_ok-lint_probability s,
      is_ok-lint_flat_faults parse_duration (lint_name s.name) (is_broad s) s.faults,
      is_ok-lint_stages parse_duration (lint_name s.name) (is_broad s) s.stages,
      is_ok-lint_final_stage (lint_name s.name) s.stages,
    )

is_ok-lint_each :
    (parse_duration : Text → Option ℤ) (specs : List RuleSpec)
    → is_ok (lint_each parse_duration specs) ≡ not (any is_hazard specs)
unfolding lint_each
is_ok-lint_each parse_duration [] = unfold is_ok in refl
is_ok-lint_each parse_duration (s ∷ rest) = ground (
  arith,
  is_ok-append (lint_spec parse_duration s) (lint_each parse_duration rest),
  is_ok-lint_spec parse_duration s,
  is_ok-lint_each parse_duration rest,
)

abbrev pub is_reject : LintMode → Bool
is_reject lint_reject = true
is_reject _ = false

-- The gate rejects a rule set exactly in the mode that rejects, and when one of its specs has no
-- kind and no name scope ("*" is none) and injects a panic, a connection drop or a disconnect, in
-- its faults or in a stage. No other finding rejects.
pub lint_gate-rejects :
    (parse_duration : Text → Option ℤ) (mode : LintMode) (specs : List RuleSpec)
    → (lint_gate parse_duration mode specs).1 ≡ is_reject mode && any is_hazard specs
unfolding lint_gate lint_specs
lint_gate-rejects parse_duration lint_reject specs = ground (
  arith,
  is_ok-append (lint_each parse_duration specs) (lint_overlaps [] specs),
  is_ok-lint_each parse_duration specs,
  is_ok-lint_overlaps [] specs,
)
lint_gate-rejects parse_duration _ specs = refl
