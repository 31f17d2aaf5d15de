-- ===== src/Terms/Parse.antt =====
-- The parser of source/terms/terms.go: `Parse`, `Compile` and the functions under them.
pub mod Laws
use chaotic.Base.{
  ℕ, suc, ◌+◌, ◌-◌, Bool, true, false, ◌&&◌, ◌||◌, if◌then◌else◌, leb, ◌==◌, ℤ, pos, List, [], ◌∷◌,
  ◌++◌, Option, none, some, Text, Map, bytes, text_eq, insert, length, take, drop, get_or, Float,
  scaled,
}
use chaotic.Engine.Rule.{Rule, Store}
use chaotic.Engine.Spec.{RuleSpec, CounterSpec, StageSpec, FaultSpec, Library, SpecErr}
use chaotic.Engine.Spec.Faults.{is_empty}
use chaotic.Engine.Spec.Build.{Built, built, invalid, build_rule}
use chaotic.Engine.Lint.{Report, LintMode, lint_gate}
use chaotic.Terms.{split_top, index_top, split_top_arrow, index_byte, split_call, trim_space, atoi}

-- `strconv.ParseFloat(s, 64)` divided by 100, and `strconv.Unquote`; `none` is their error.
pub record Literals : Type 0 where
  pub parse_percent : Text → Option Float
  pub unquote_go : Text → Option Text

-- The errors, each with the text that its message shows.
pub data TermErr : Type 0 where
  unclosed_call empty_selectors bad_attr unknown_selector bad_count bad_percent : Text → TermErr
  stage_percent stage_count jitter_args error_message panic_value unknown_action : Text → TermErr
  empty_term empty_ruleset : TermErr
  lint_rejected : Report → TermErr
  rule_refused : List SpecErr → TermErr

pub data Parsed {ℓ} (A : Type ℓ) : Type ℓ where
  got : A → Parsed A
  fail : TermErr → Parsed A

unfoldable pub then_parse : {A B : Type 0} → Parsed A → (A → Parsed B) → Parsed B
then_parse (got a) f = f a
then_parse (fail e) f = fail e

abbrev blank_counter : CounterSpec
blank_counter = record {
  type = [];
  n = pos 0;
  from = pos 0;
  to = pos 0;
  p = scaled (pos 0);
  seed = pos 0;
}

-- The zero value of `engine.RuleSpec`, and a fault with a type alone.
abbrev pub blank_spec : RuleSpec
blank_spec = record {
  name = [];
  kinds = [];
  name_glob = [];
  attrs = [];
  counter = blank_counter;
  faults = [];
  stages = [];
}

abbrev blank_fault : Text → FaultSpec
blank_fault type = record {
  type = type;
  duration = [];
  min = [];
  max = [];
  message = [];
  value = [];
  rate = pos 0;
  limit = pos 0;
}

-- `unquote`.
unquote : Literals → Text → Option Text
unquote lits s =
    let t = trim_space s in
    if leb 2 (length t) && get_or t 0 0 == b'"' then lits.unquote_go t else some t

abbrev add_fault : FaultSpec → RuleSpec → RuleSpec
add_fault f spec = record spec { faults = spec.faults ++ f ∷ [] }

-- `parseAction`.
unfoldable pub parse_action : Literals → Text → Text → RuleSpec → Parsed RuleSpec
unfolding unquote
parse_action lits name args spec =
    if text_eq name (bytes "latency")
    then got
        (add_fault (record (blank_fault (bytes "latency")) { duration = trim_space args }) spec)
    else if text_eq name (bytes "jitter")
    then elim (index_byte b',' args) [
      | none ↦ fail (TermErr.jitter_args args)
      | some i ↦ got (
          add_fault
            (record (blank_fault (bytes "jittered")) {
              min = trim_space (take i args);
              max = trim_space (drop (i + 1) args);
            })
            spec)
    ]
    else if text_eq name (bytes "error")
    then elim (unquote lits args) [
      | none ↦ fail (TermErr.error_message args)
      | some msg ↦ got (add_fault (record (blank_fault (bytes "error")) { message = msg }) spec)
    ]
    else if text_eq name (bytes "panic")
    then elim (unquote lits args) [
      | none ↦ fail (TermErr.panic_value args)
      | some v ↦ got (add_fault (record (blank_fault (bytes "panic")) { value = v }) spec)
    ]
    else if text_eq name (bytes "conndrop")
    then got (add_fault (blank_fault (bytes "conn_drop")) spec)
    else if text_eq name (bytes "off")
    then got spec
    else fail (TermErr.unknown_action name)

-- The bytes before the first "(".
abbrev head : Text → Text
head s = elim (index_byte b'(' s) [ none ↦ s | some i ↦ take i s ]

-- The first "*" or "%" (`strings.IndexAny`).
unfoldable pub index_mode : Text → Option ℕ
index_mode [] = none
index_mode (c ∷ s) =
    let rest = index_mode s in
    if c == b'*' || c == b'%' then some 0 else elim rest [ none ↦ none | some i ↦ some (suc i) ]

-- The call "name(args)" at the end of a term.
unfoldable pub parse_call : Literals → Text → RuleSpec → Parsed RuleSpec
parse_call lits s spec = elim (split_call s) [
  | none ↦ fail (TermErr.unclosed_call s)
  | some (name, args) ↦ parse_action lits (trim_space name) args spec
]

-- The counter that the mode at `i` sets.
unfoldable pub mode_counter : Literals → Text → ℕ → Parsed CounterSpec
mode_counter lits s i =
    let before = take i s in
    if get_or s i 0 == b'*'
    then elim (atoi (trim_space before)) [
      | none ↦ fail (TermErr.bad_count before)
      | some n ↦ got (record (blank_counter) { type = bytes "times"; n = n })
    ]
    else elim (lits.parse_percent (trim_space before)) [
      | none ↦ fail (TermErr.bad_percent before)
      | some p ↦ got (record (blank_counter) { type = bytes "probability"; p = p })
    ]

-- `parseTerm`.
unfoldable pub parse_term : Literals → Text → RuleSpec → Parsed RuleSpec
unfolding then_parse index_mode parse_call mode_counter
parse_term lits text spec =
    let s = trim_space text in
    if is_empty s then fail TermErr.empty_term else elim (index_mode (head s)) [
      | none ↦ parse_call lits s spec
      | some i ↦ then_parse (mode_counter lits s i) λ counter.
          parse_call lits (trim_space (drop (i + 1) s)) (record spec { counter = counter })
    ]

-- The action of a stage, through a blank spec.
unfoldable pub stage_of : Literals → ℤ → Text → Parsed StageSpec
unfolding then_parse parse_call
stage_of lits times s =
    then_parse (parse_call lits s blank_spec)
      λ scratch. got (record { times = times; faults = scratch.faults })

-- `parseStageSegment`.
unfoldable pub parse_stage_segment : Literals → Text → Parsed StageSpec
unfolding index_mode stage_of
parse_stage_segment lits s = elim (index_mode (head s)) [
  | none ↦ stage_of lits (pos 0) s
  | some i ↦
      if get_or s i 0 == b'%'
      then fail (TermErr.stage_percent s)
      else elim (atoi (trim_space (take i s))) [
        | none ↦ fail (TermErr.stage_count (take i s))
        | some n ↦ stage_of lits n (trim_space (drop (i + 1) s))
      ]
]

-- One selector of `parseSelectors`; an attribute that comes again is overwritten.
unfoldable pub parse_selector : Text → RuleSpec → Parsed RuleSpec
parse_selector sel spec = elim (split_call sel) [
  | none ↦ fail (TermErr.unclosed_call sel)
  | some (name, args) ↦
      if text_eq name (bytes "kind")
      then got (record spec { kinds = spec.kinds ++ trim_space args ∷ [] })
      else if text_eq name (bytes "name")
      then got (record spec { name_glob = trim_space args })
      else if text_eq name (bytes "attr")
      then elim (index_byte b'=' args) [
        | none ↦ fail (TermErr.bad_attr sel)
        | some i ↦ got (record spec {
          attrs = insert (trim_space (take i args)) (trim_space (drop (i + 1) args)) spec.attrs;
        })
      ]
      else fail (TermErr.unknown_selector name)
]

unfoldable pub selectors_from : List Text → RuleSpec → Parsed RuleSpec
unfolding then_parse parse_selector
selectors_from [] spec = got spec
selectors_from (raw ∷ rest) spec =
    let sel = trim_space raw in
    if is_empty sel
    then selectors_from rest spec
    else then_parse (parse_selector sel spec) (λ next. selectors_from rest next)

-- `parseSelectors`.
unfoldable pub parse_selectors : Text → RuleSpec → Parsed RuleSpec
unfolding selectors_from
parse_selectors s spec = selectors_from (split_top s b',') spec

unfoldable pub parse_segments : Literals → List Text → Parsed (List StageSpec)
unfolding then_parse
parse_segments lits [] = got []
parse_segments lits (seg ∷ rest) =
    then_parse (parse_stage_segment lits (trim_space seg))
      λ st. then_parse (parse_segments lits rest) λ sts. got (st ∷ sts)

-- The end of `parseRule`: stages where the term has an arrow, one action otherwise.
unfoldable pub parse_body : Literals → Text → RuleSpec → Parsed RuleSpec
unfolding then_parse parse_segments
parse_body lits term spec =
    let segs = split_top_arrow term in
    if leb 2 (length segs)
    then then_parse (parse_segments lits segs) (λ sts. got (record spec { stages = sts }))
    else parse_term lits term spec

-- The "selectors=" prefix.
unfoldable pub parse_selected : Literals → Text → RuleSpec → Parsed RuleSpec
unfolding then_parse
parse_selected lits s spec = elim (index_top s b'=') [
  | none ↦ parse_body lits s spec
  | some i ↦
      let sel = trim_space (take i s) in
      if is_empty sel
      then fail (TermErr.empty_selectors s)
      else then_parse (parse_selectors sel spec) (parse_body lits (trim_space (drop (i + 1) s)))
]

-- `parseRule`.
unfoldable pub parse_rule : Literals → Text → Parsed RuleSpec
unfolding parse_selected
parse_rule lits s = elim (index_top s b':') [
  | none ↦ parse_selected lits s blank_spec
  | some i ↦
      parse_selected lits (trim_space (drop (i + 1) s))
        (record (blank_spec) { name = trim_space (take i s) })
]

-- The loop of `Parse`.
unfoldable pub parse_rules : Literals → List Text → Parsed (List RuleSpec)
unfolding then_parse
parse_rules lits [] = got []
parse_rules lits (raw ∷ rest) =
    let rule = trim_space raw in
    if is_empty rule
    then parse_rules lits rest
    else then_parse (parse_rule lits rule)
        λ spec. then_parse (parse_rules lits rest) λ specs. got (spec ∷ specs)

unfoldable pub gated : List RuleSpec → Report × Bool → Parsed (List RuleSpec × Report)
gated specs (rep, rejected) =
    if rejected then fail (TermErr.lint_rejected rep) else got (specs, rep)

-- The end of `Parse`: the specs, and the report that `config.gate` writes to the log.
unfoldable pub gate : (Text → Option ℤ) → LintMode → List RuleSpec → Parsed (List RuleSpec × Report)
unfolding gated
gate parse_duration mode [] = fail TermErr.empty_ruleset
gate parse_duration mode (spec ∷ specs) =
    gated (spec ∷ specs) (lint_gate parse_duration mode (spec ∷ specs))

-- `Parse`.
unfoldable pub parse : Library → Literals → LintMode → Text → Parsed (List RuleSpec × Report)
unfolding then_parse
parse std lits mode s =
    then_parse (parse_rules lits (split_top s b';')) (gate std.parse_duration mode)

-- The loop of `Compile`, which ends at the first error; `none` is a panic.
unfoldable pub build_all : Library → List RuleSpec → Store → Option (Parsed (List Rule × Store))
build_all std [] store = some (got ([], store))
build_all std (spec ∷ specs) store = elim (build_rule std spec store) [
  | none ↦ none
  | some (invalid errs) ↦ some (fail (TermErr.rule_refused errs))
  | some (built r store') ↦ elim (build_all std specs store') [
    | none ↦ none
    | some (fail e) ↦ some (fail e)
    | some (got (rules, last)) ↦ some (got (r ∷ rules, last))
  ]
]

-- `Compile`.
unfoldable pub compile :
    Library → Literals → LintMode → Text → Store → Option (Parsed (List Rule × Store))
unfolding build_all
compile std lits mode s store = elim (parse std lits mode s) [
  | fail e ↦ some (fail e)
  | got (specs, _) ↦ build_all std specs store
]
