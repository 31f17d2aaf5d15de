-- ===== src/Engine/Spec/Build.antt =====
-- `BuildRule` (engine/spec.go): a rule from its spec, or every error of the spec.
pub mod Parts
pub mod Sequence
pub mod Total
use chaotic.Base.{
  ℕ, suc, Bool, true, false, not, ◌&&◌, if◌then◌else◌, ltb_ℤ, leb_ℤ, ℤ, pos, List, [], ◌∷◌, ◌++◌,
  Option, none, some, Text, Map, bytes, text_eq, lookup, Float, one_scaled, below_float,
  above_float,
}
use chaotic.Fault.{Fault}
use chaotic.Engine.Op.{Kind}
use chaotic.Engine.Op.Kinds
use chaotic.Engine.Staged.{Stage, is_nil}
use chaotic.Engine.Rule.{Rule, Store}
use chaotic.Engine.Rule.Options
use chaotic.Engine.Rule.Options.{RuleOption, new_rule, named}
use chaotic.Engine.Spec.{
  RuleSpec, CounterSpec, StageSpec, FaultSpec, Library, SpecErr, Checked, ok, bad,
}
use chaotic.Engine.Spec.Faults.{build_fault_list, is_empty}

unfoldable pub kind_names : Map Kind
kind_names =
    (bytes "http_client", Kinds.http_client)
    ∷ (bytes "http_server", Kinds.http_server)
    ∷ (bytes "sql", Kinds.sql)
    ∷ (bytes "grpc_client", Kinds.grpc_client)
    ∷ (bytes "grpc_server", Kinds.grpc_server)
    ∷ (bytes "explicit", Kinds.explicit)
    ∷ (bytes "pgx", Kinds.pgx)
    ∷ (bytes "redis", Kinds.redis)
    ∷ (bytes "rabbitmq", Kinds.rabbitmq)
    ∷ (bytes "mongo", Kinds.mongo)
    ∷ (bytes "kafka", Kinds.kafka)
    ∷ (bytes "aws", Kinds.aws)
    ∷ (bytes "nats", Kinds.nats)
    ∷ (bytes "net", Kinds.net)
    ∷ (bytes "io", Kinds.io)
    ∷ []

-- The known kinds, and an error for each unknown one.
unfoldable pub build_kinds : List Text → List Kind × List SpecErr
unfolding kind_names
build_kinds [] = ([], [])
build_kinds (k ∷ ks) =
    let (kinds, errs) = build_kinds ks in
    elim (lookup k kind_names) [
      | none ↦ (kinds, SpecErr.unknown_kind k ∷ errs)
      | some v ↦ (v ∷ kinds, errs)
    ]

kind_options : List Kind → List RuleOption
kind_options [] = []
kind_options (k ∷ ks) = Options.match_kind (k ∷ ks) ∷ []

glob_options : Library → Text → List RuleOption
glob_options std glob = if is_empty glob then [] else Options.match_name std.path_match glob ∷ []

attr_options : Map Text → List RuleOption
attr_options [] = []
attr_options ((k, v) ∷ m) = Options.match_attr k v ∷ attr_options m

unfoldable pub build_match_options : Library → RuleSpec → List RuleOption × List SpecErr
unfolding build_kinds kind_options glob_options attr_options
build_match_options std spec =
    let (kinds, errs) = build_kinds spec.kinds in
    (kind_options kinds ++ (glob_options std spec.name_glob ++ attr_options spec.attrs), errs)

-- `none` is a panic of the option's construction.
unfoldable pub build_counter_option : Library → CounterSpec → Option (Checked RuleOption)
build_counter_option std c =
    if is_empty c.type
    then some (ok Options.always)
    else if text_eq c.type (bytes "always")
    then some (ok Options.always)
    else if text_eq c.type (bytes "times")
    then some (ok (Options.times c.n))
    else if text_eq c.type (bytes "range")
    then some (ok (Options.range c.from c.to))
    else if text_eq c.type (bytes "probability")
    then (if below_float c.p (pos 0)
        then some (bad (SpecErr.probability_range c.p))
        else if above_float c.p (pos one_scaled)
        then some (bad (SpecErr.probability_range c.p))
        else elim (Options.probability c.p (std.pcg c.seed)) [ none ↦ none | some o ↦ some (ok o) ])
    else some (bad (SpecErr.unknown_counter c.type))

-- The error of a stage's count at index `i`, where it has one.
stage_errs : ℕ → Bool → ℤ → List SpecErr
stage_errs i last times =
    if last
    then (if ltb_ℤ times (pos 0) then SpecErr.final_stage ∷ [] else [])
    else (if leb_ℤ times (pos 0) then SpecErr.inner_stage i ∷ [] else [])

unfoldable pub build_stages : Library → ℕ → List StageSpec → List Stage × List SpecErr
unfolding stage_errs build_fault_list
build_stages std i [] = ([], [])
build_stages std i (s ∷ rest) =
    let (stages, errs) = build_stages std (suc i) rest in
    let (faults, ferrs) = build_fault_list std s.faults in
    (
      record { times = s.times; faults = faults } ∷ stages,
      stage_errs i (is_nil rest) s.times ++ (ferrs ++ errs),
    )

unfoldable pub build_stage_options : Library → RuleSpec → List Stage × List SpecErr
unfolding build_stages
build_stage_options std spec =
    let (stages, errs) = build_stages std 0 spec.stages in
    let with_counter =
      not (is_empty spec.counter.type) && not (text_eq spec.counter.type (bytes "always")) in
    (
      stages,
      (if with_counter then SpecErr.stages_with_counter ∷ [] else [])
          ++ ((if is_nil spec.faults then [] else SpecErr.stages_with_faults ∷ []) ++ errs),
    )

-- What `BuildRule` returns: the rule with the store that holds its objects, or the joined errors.
pub data Built : Type 0 where
  built : Rule → Store → Built
  invalid : List SpecErr → Built

pub fault_options : List Fault → List RuleOption
fault_options [] = []
fault_options (f ∷ fs) = Options.with_faults (f ∷ fs) ∷ []

finish : Text → Option (Rule × Store) → Option Built
finish name none = none
finish name (some (r, s)) = some (built (if is_empty name then r else named name r) s)

-- The end of `BuildRule`: the joined errors, or the rule of the options.
assemble : Text → List RuleOption → List SpecErr → Store → Option Built
unfolding finish
assemble name opts [] s = finish name (new_rule opts s)
assemble name opts (e ∷ errs) s = some (invalid (e ∷ errs))

-- The part on stages. `WithStages` is called only where there is no error so far.
with_stage_options : Text → List RuleOption → List SpecErr → List Stage → Store → Option Built
unfolding assemble
with_stage_options name opts [] stages s = elim (Options.with_stages stages s) [
  | none ↦ none
  | some (o, s') ↦ assemble name (opts ++ o ∷ []) [] s'
]
with_stage_options name opts (e ∷ errs) stages s = assemble name opts (e ∷ errs) s

after_counter : Library → RuleSpec → List RuleOption → List SpecErr → Store → Option Built
unfolding with_stage_options fault_options
after_counter std spec opts errs s =
    let (faults, ferrs) = build_fault_list std spec.faults in
    let opts' = opts ++ fault_options faults in
    let errs' = errs ++ ferrs in
    if is_nil spec.stages
    then assemble spec.name opts' errs' s
    else let (stages, serrs) = build_stage_options std spec in
      with_stage_options spec.name opts' (errs' ++ serrs) stages s

-- `none` is a panic.
unfoldable pub build_rule : Library → RuleSpec → Store → Option Built
unfolding after_counter
build_rule std spec s =
    let (mopts, merrs) = build_match_options std spec in
    elim (build_counter_option std spec.counter) [
      | none ↦ none
      | some (ok o) ↦ after_counter std spec (mopts ++ o ∷ []) merrs s
      | some (bad e) ↦ after_counter std spec mopts (merrs ++ e ∷ []) s
    ]
