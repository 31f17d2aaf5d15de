-- ===== src/Terms/Parse/Laws.antt =====
-- What the parser's specs are like.
use chaotic.Base.{
  suc, ◌+◌, ◌≡◌, refl, ap, sym, ◌⊎◌, inl, inr, Bool, true, false, not, ◌&&◌, ℤ, List, [], ◌∷◌,
  Option, none, some, Text, length, count, All, any, arith, leb, Bool-cases, Option-cases, drop,
  take, ◌≤◌,
}
use chaotic.Engine.Spec.{RuleSpec, CounterSpec, Library}
use chaotic.Engine.Spec.Faults.{is_empty}
use chaotic.Engine.Lint.{Report, LintMode, lint_gate}
use chaotic.Engine.Lint.Strict.{is_hazard, is_reject, lint_gate-rejects}
use chaotic.Terms.{split_top, split_top_arrow, trim_space, split_call, index_top}
use chaotic.Terms.Parse.{
  Literals, TermErr, Parsed, got, fail, then_parse, blank_spec, parse_action, parse_term,
  parse_selectors, parse_body, parse_rule, parse_rules, gate, gated, parse, parse_call,
  mode_counter, selectors_from, parse_selector, parse_segments, parse_selected, index_mode, head,
}

-- A property of what was parsed.
abbrev pub Holds : {A : Type 0} → (A → Type 0) → Parsed A → Type 0
Holds P (got a) = P a
Holds P (fail e) = Unit {0}

then_parse-Holds :
    {A B : Type 0} (P : A → Type 0) (Q : B → Type 0) (m : Parsed A) (f : A → Parsed B)
    → Holds P m
    → ((a : A) → P a → Holds Q (f a))
    → Holds Q (then_parse m f)
unfolding then_parse
then_parse-Holds P Q (got a) f h k = k a h
then_parse-Holds P Q (fail e) f h k = tt

anything : {A : Type 0} (m : Parsed A) → Holds (λ _. Unit {0}) m
anything (got a) = tt
anything (fail e) = tt

weaken :
    {A : Type 0} (P Q : A → Type 0) (m : Parsed A) → Holds P m → ((a : A) → P a → Q a) → Holds Q m
weaken P Q (got a) h k = k a h
weaken P Q (fail e) h k = tt

-- Nothing that a term sets has been set.
abbrev IsUnset : RuleSpec → Type 0
IsUnset spec = (spec.faults ≡ []) × (is_empty spec.counter.type ≡ true) × (spec.stages ≡ [])

abbrev HasNoStages : RuleSpec → Type 0
HasNoStages spec = spec.stages ≡ []

-- No stages, or stages with no counter and no faults beside them.
abbrev pub IsOneForm : RuleSpec → Type 0
IsOneForm spec = (spec.stages ≡ []) ⊎ ((spec.faults ≡ []) × (is_empty spec.counter.type ≡ true))

parse_action-HasNoStages :
    (lits : Literals) (name args : Text) (spec : RuleSpec)
    → HasNoStages spec
    → Holds HasNoStages (parse_action lits name args spec)
unfolding parse_action
parse_action-HasNoStages lits name args spec h = ground (arith, h)

parse_call-HasNoStages :
    (lits : Literals) (s : Text) (spec : RuleSpec)
    → HasNoStages spec
    → Holds HasNoStages (parse_call lits s spec)
unfolding parse_call
parse_call-HasNoStages lits s spec h =
    elim (split_call s)
      as (λ o. Holds HasNoStages (elim o [
        | none ↦ fail (TermErr.unclosed_call s)
        | some (name, args) ↦ parse_action lits (trim_space name) args spec
      ])) [
        | none ↦ tt
        | some (name, args) ↦ parse_action-HasNoStages lits (trim_space name) args spec h
      ]

after_mode :
    (lits : Literals) (m : Parsed CounterSpec) (s : Text) (spec : RuleSpec)
    → HasNoStages spec
    → Holds HasNoStages
        (then_parse m λ counter. parse_call lits s (record spec { counter = counter }))
unfolding then_parse
after_mode lits (got c) s spec h = parse_call-HasNoStages lits s (record spec { counter = c }) h
after_mode lits (fail e) s spec h = tt

parse_term-HasNoStages :
    (lits : Literals) (text : Text) (spec : RuleSpec)
    → HasNoStages spec
    → Holds HasNoStages (parse_term lits text spec)
parse_term-HasNoStages lits text spec h = elim (Bool-cases (is_empty (trim_space text))) [
  | inl blank ↦ unfold parse_term in rw blank tt
  | inr there ↦ elim (Option-cases (index_mode (head (trim_space text)))) [
    | inl plain ↦
        unfold parse_term in
        rw (there, plain) (parse_call-HasNoStages lits (trim_space text) spec h)
    | inr (i, moded) ↦
        unfold parse_term in
        rw (there, moded)
          (after_mode lits (mode_counter lits (trim_space text) i)
            (trim_space (drop (i + 1) (trim_space text))) spec h)
  ]
]

parse_selector-IsUnset :
    (sel : Text) (spec : RuleSpec) → IsUnset spec → Holds IsUnset (parse_selector sel spec)
unfolding parse_selector
parse_selector-IsUnset sel spec h = ground (arith, h)

selectors_from-IsUnset :
    (raws : List Text) (spec : RuleSpec) → IsUnset spec → Holds IsUnset (selectors_from raws spec)
unfolding selectors_from
selectors_from-IsUnset [] spec h = h
selectors_from-IsUnset (raw ∷ rest) spec h = elim (Bool-cases (is_empty (trim_space raw))) [
  | inl blank ↦ let further = selectors_from-IsUnset rest spec h in rw blank further
  | inr there ↦ rw there (
      then_parse-Holds IsUnset IsUnset (parse_selector (trim_space raw) spec) (selectors_from rest)
        (parse_selector-IsUnset (trim_space raw) spec h)
        λ next k. selectors_from-IsUnset rest next k)
]

parse_body-IsOneForm :
    (lits : Literals) (term : Text) (spec : RuleSpec)
    → IsUnset spec
    → Holds IsOneForm (parse_body lits term spec)
parse_body-IsOneForm lits term spec h = elim (Bool-cases (leb 2 (length (split_top_arrow term)))) [
  | inl staged ↦
      unfold parse_body in
      rw staged (
        then_parse-Holds (λ _. Unit {0}) IsOneForm (parse_segments lits (split_top_arrow term)) _
          (anything (parse_segments lits (split_top_arrow term))) λ sts _. inr (h.0, h.1))
  | inr plain ↦
      unfold parse_body in
      rw plain (
        weaken HasNoStages IsOneForm (parse_term lits term spec)
          (parse_term-HasNoStages lits term spec h.2) (λ a k. inl k))
]

parse_selected-IsOneForm :
    (lits : Literals) (s : Text) (spec : RuleSpec)
    → IsUnset spec
    → Holds IsOneForm (parse_selected lits s spec)
parse_selected-IsOneForm lits s spec h = elim (Option-cases (index_top s b'=')) [
  | inl plain ↦ unfold parse_selected in rw (Holds, plain) (parse_body-IsOneForm lits s spec h)
  | inr (i, selected) ↦ elim (Bool-cases (is_empty (trim_space (take i s)))) [
    | inl blank ↦ unfold parse_selected in rw (Holds, selected, blank) tt
    | inr there ↦
        unfold parse_selected parse_selectors in
        rw (Holds, selected, there)
          (then_parse-Holds IsUnset IsOneForm
            (selectors_from (split_top (trim_space (take i s)) b',') spec)
            (parse_body lits (trim_space (drop (i + 1) s)))
            (selectors_from-IsUnset (split_top (trim_space (take i s)) b',') spec h)
            (parse_body-IsOneForm lits (trim_space (drop (i + 1) s))))
  ]
]

-- A rule that parses has stages, or has a counter and faults, never both.
pub parse_rule-IsOneForm : (lits : Literals) (s : Text) → Holds IsOneForm (parse_rule lits s)
parse_rule-IsOneForm lits s = elim (Option-cases (index_top s b':')) [
  | inl plain ↦
      unfold parse_rule in
      rw (Holds, plain) (parse_selected-IsOneForm lits s blank_spec (refl, refl, refl))
  | inr (i, colon) ↦
      unfold parse_rule in
      rw (Holds, colon)
        (parse_selected-IsOneForm lits (trim_space (drop (i + 1) s))
          (record (blank_spec) { name = trim_space (take i s) }) (refl, refl, refl))
]

-- The part holds a rule.
abbrev pub is_written : Text → Bool
is_written raw = not (is_empty (trim_space raw))

-- What `Parse` promises of its specs, apart from the lint.
abbrev pub AreRules : List Text → List RuleSpec → Type 0
AreRules raws specs = (length specs ≡ count is_written raws) × All IsOneForm specs

parse_rules-AreRules :
    (lits : Literals) (raws : List Text) → Holds (AreRules raws) (parse_rules lits raws)
unfolding parse_rules
parse_rules-AreRules lits [] = (refl, tt)
parse_rules-AreRules lits (raw ∷ rest) = elim (Bool-cases (is_empty (trim_space raw))) [
  | inl blank ↦ rw blank (
      weaken (AreRules rest) (AreRules (raw ∷ rest)) (parse_rules lits rest)
        (parse_rules-AreRules lits rest) λ specs (size, all). (rw blank size, all))
  | inr there ↦ rw there (
      then_parse-Holds IsOneForm (AreRules (raw ∷ rest)) (parse_rule lits (trim_space raw))
        (λ spec. then_parse (parse_rules lits rest) (λ specs. got (spec ∷ specs)))
        (parse_rule-IsOneForm lits (trim_space raw))
        λ spec one.
          then_parse-Holds (AreRules rest) (AreRules (raw ∷ rest)) (parse_rules lits rest)
            (λ specs. got (spec ∷ specs)) (parse_rules-AreRules lits rest)
            λ specs (size, all). (rw there (ap suc size), (one, all)))
]

-- The specs are at least one, and pass the lint where its mode is to reject.
abbrev pub PassesGate : LintMode → List RuleSpec → Type 0
PassesGate mode specs = (1 ≤ length specs) × (is_reject mode && any is_hazard specs ≡ false)

gated-PassesGate :
    (mode : LintMode) (raws : List Text) (specs : List RuleSpec) (verdict : Report × Bool)
    → 1 ≤ length specs
    → verdict.1 ≡ is_reject mode && any is_hazard specs
    → AreRules raws specs
    → Holds (λ (found, rep). AreRules raws found × PassesGate mode found) (gated specs verdict)
unfolding gated
gated-PassesGate mode raws specs (rep, true) some_rule h rules = tt
gated-PassesGate mode raws specs (rep, false) some_rule h rules = (rules, (some_rule, sym h))

gate-PassesGate :
    (parse_duration : Text → Option ℤ) (mode : LintMode) (raws : List Text) (specs : List RuleSpec)
    → AreRules raws specs
    → Holds
        (λ (found, rep). AreRules raws found × PassesGate mode found)
        (gate parse_duration mode specs)
unfolding gate
gate-PassesGate parse_duration mode raws [] rules = tt
gate-PassesGate parse_duration mode raws (spec ∷ specs) rules =
    gated-PassesGate mode raws (spec ∷ specs) (lint_gate parse_duration mode (spec ∷ specs))
      (omega arith) (lint_gate-rejects parse_duration mode (spec ∷ specs)) rules

-- A parse that succeeds gives one spec for each part between semicolons that is not blank, and at
-- least one, each with stages or with a counter and faults, never both. Where the lint mode is to
-- reject, no spec without a kind and a name scope injects a panic, a drop or a disconnect.
pub parse-accepts :
    (std : Library) (lits : Literals) (mode : LintMode) (s : Text)
    → Holds
        (λ (specs, rep). AreRules (split_top s b';') specs × PassesGate mode specs)
        (parse std lits mode s)
unfolding parse
parse-accepts std lits mode s =
    then_parse-Holds (AreRules (split_top s b';'))
      (λ (specs, rep). AreRules (split_top s b';') specs × PassesGate mode specs)
      (parse_rules lits (split_top s b';')) (gate std.parse_duration mode)
      (parse_rules-AreRules lits (split_top s b';'))
      (gate-PassesGate std.parse_duration mode (split_top s b';'))
