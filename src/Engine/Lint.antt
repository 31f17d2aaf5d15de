-- ===== src/Engine/Lint.antt =====
-- The blast-radius linter (engine/lint.go, engine/lintmode.go, engine/introspect.go).
pub mod Rules
pub mod Strict
pub mod Terminal
use chaotic.Base.{
  ℕ, ◌+◌, Bool, true, false, not, ◌&&◌, ◌||◌, if◌then◌else◌, leb, ltb, ◌==◌, ltb_ℤ, leb_ℤ, ℤ, pos,
  List, [], ◌∷◌, ◌++◌, Option, none, some, Text, Map, bytes, text_eq, lookup, insert, Float,
  below_float, scaled, one_scaled, nan,
}
use chaotic.Fault
use chaotic.Fault.{Fault, kind_of}
use chaotic.Engine.Staged.{is_nil, is_zero}
use chaotic.Engine.Spec.{RuleSpec, CounterSpec, FaultSpec, StageSpec}
use chaotic.Engine.Spec.Faults.{is_empty}

pub data Severity : Type 0 where
  info warn high : Severity

-- What a finding says, with the values that its message shows. Two messages belong to `Lint`, the
-- others to `LintSpecs`.
pub data Message : Type 0 where
  matches_all_terminal : List Text → Message
  matches_all : Message
  wildcard_glob : Message
  always_probability : Message
  endless_stream : Text → Message
  permanent_stage : Text → Message
  same_target : Text → Message
  long_latency : ℤ → Message
  broad_terminal : Text → Message

pub record Finding : Type 0 where
  pub severity : Severity
  pub rule : Text
  pub message : Message

-- A report is its findings.
abbrev pub Report : Type 0
Report = List Finding

abbrev pub is_high : Severity → Bool
is_high high = true
is_high _ = false

-- `Report.OK`.
unfoldable pub is_ok : Report → Bool
is_ok [] = true
is_ok (f ∷ fs) = let rest = is_ok fs in if is_high f.severity then false else rest

abbrev pub lint_name : Text → Text
lint_name [] = bytes "<unnamed>"
lint_name (c ∷ s) = c ∷ s

unfoldable pub is_terminal_fault_type : Text → Bool
is_terminal_fault_type t =
    text_eq t (bytes "panic") || (text_eq t (bytes "conn_drop") || text_eq t (bytes "disconnect"))

-- `terminalKindName`; the empty name is `none`.
unfoldable pub terminal_kind_name : Fault.Kind → Option Text
terminal_kind_name Fault.Kind.panic_kind = some (bytes "panic")
terminal_kind_name Fault.Kind.conn_drop_kind = some (bytes "conn_drop")
terminal_kind_name Fault.Kind.disconnect_kind = some (bytes "disconnect")
terminal_kind_name _ = none

-- Five seconds, in nanoseconds.
abbrev pub lint_latency_ceiling : ℤ
lint_latency_ceiling = pos 5000000000

abbrev finding : Severity → Text → Message → Report
finding s name m = record { severity = s; rule = name; message = m } ∷ []

-- `specLatency`, given `time.ParseDuration`.
unfoldable pub spec_latency : (Text → Option ℤ) → FaultSpec → Option ℤ
spec_latency parse_duration fs =
    if text_eq fs.type (bytes "latency")
    then parse_duration fs.duration
    else if text_eq fs.type (bytes "jittered")
    then parse_duration fs.max
    else none

latency_finding : Text → Option ℤ → Report
latency_finding name none = []
latency_finding name (some d) =
    if ltb_ℤ lint_latency_ceiling d then finding Severity.warn name (Message.long_latency d) else []

-- `lintFault`: what it appends to the report.
unfoldable pub lint_fault : (Text → Option ℤ) → Text → Bool → FaultSpec → Report
unfolding latency_finding
lint_fault parse_duration name broad fs =
    latency_finding name (spec_latency parse_duration fs)
    ++ (if broad && is_terminal_fault_type fs.type
        then finding Severity.high name (Message.broad_terminal fs.type)
        else [])

unfoldable pub lint_flat_fault : (Text → Option ℤ) → Text → Bool → FaultSpec → Report
unfolding lint_fault
lint_flat_fault parse_duration name broad fs =
    (if (text_eq fs.type (bytes "slow_reader") || text_eq fs.type (bytes "slow_writer"))
        && is_zero fs.rate
      then finding Severity.warn name (Message.endless_stream fs.type)
      else [])
    ++ lint_fault parse_duration name broad fs

unfoldable pub lint_flat_faults : (Text → Option ℤ) → Text → Bool → List FaultSpec → Report
lint_flat_faults parse_duration name broad [] = []
lint_flat_faults parse_duration name broad (fs ∷ rest) =
    lint_flat_fault parse_duration name broad fs ++ lint_flat_faults parse_duration name broad rest

unfoldable pub lint_faults : (Text → Option ℤ) → Text → Bool → List FaultSpec → Report
lint_faults parse_duration name broad [] = []
lint_faults parse_duration name broad (fs ∷ rest) =
    lint_fault parse_duration name broad fs ++ lint_faults parse_duration name broad rest

unfoldable pub lint_stages : (Text → Option ℤ) → Text → Bool → List StageSpec → Report
lint_stages parse_duration name broad [] = []
lint_stages parse_duration name broad (st ∷ rest) =
    lint_faults parse_duration name broad st.faults ++ lint_stages parse_duration name broad rest

permanent : Text → List FaultSpec → Report
permanent name [] = []
permanent name (fs ∷ rest) =
    (if is_terminal_fault_type fs.type
      then finding Severity.warn name (Message.permanent_stage fs.type)
      else [])
    ++ permanent name rest

-- `lintFinalStage`.
unfoldable pub lint_final_stage : Text → List StageSpec → Report
unfolding permanent
lint_final_stage name [] = []
lint_final_stage name (st ∷ []) = if is_zero st.times then permanent name st.faults else []
lint_final_stage name (st ∷ (next ∷ rest)) = lint_final_stage name (next ∷ rest)

-- P >= 1.0.
abbrev at_least_one : Float → Bool
at_least_one nan = false
at_least_one (scaled p) = leb_ℤ (pos one_scaled) p

-- No kinds, and a glob that is empty or "*".
abbrev pub is_broad : RuleSpec → Bool
is_broad s = is_nil s.kinds && (is_empty s.name_glob || text_eq s.name_glob (bytes "*"))

unfoldable pub lint_wildcard : RuleSpec → Report
lint_wildcard s =
    if text_eq s.name_glob (bytes "*")
    then finding Severity.warn (lint_name s.name) Message.wildcard_glob
    else []

unfoldable pub lint_probability : RuleSpec → Report
lint_probability s =
    if text_eq s.counter.type (bytes "probability") && at_least_one s.counter.p
    then finding Severity.warn (lint_name s.name) Message.always_probability
    else []

-- `lintSpec`.
unfoldable pub lint_spec : (Text → Option ℤ) → RuleSpec → Report
unfolding lint_wildcard lint_probability
lint_spec parse_duration s =
    let name = lint_name s.name in
    lint_wildcard s
    ++ (lint_probability s
        ++ (lint_flat_faults parse_duration name (is_broad s) s.faults
            ++ (lint_stages parse_duration name (is_broad s) s.stages
                ++ lint_final_stage name s.stages)))

-- The order of byte strings.
text_le : Text → Text → Bool
text_le [] t = true
text_le (a ∷ s) [] = false
text_le (a ∷ s) (b ∷ t) =
    let rest = text_le s t in if ltb a b then true else if ltb b a then false else rest

insert_sorted : Text → List Text → List Text
insert_sorted t [] = t ∷ []
insert_sorted t (u ∷ us) =
    let rest = insert_sorted t us in if text_le t u then t ∷ (u ∷ us) else u ∷ rest

sort : List Text → List Text
sort [] = []
sort (t ∷ ts) = insert_sorted t (sort ts)

-- `strings.Join(kinds, ",")`.
join_commas : List Text → Text
join_commas [] = []
join_commas (t ∷ []) = t
join_commas (t ∷ (u ∷ us)) = t ++ (b',' ∷ join_commas (u ∷ us))

unfoldable pub spec_signature : RuleSpec → Text
unfolding text_le insert_sorted sort join_commas
spec_signature s = join_commas (sort s.kinds) ++ (b'|' ∷ s.name_glob)

-- The loop of `lintOverlaps`, with the names of the first specs by signature.
unfoldable pub lint_overlaps : Map Text → List RuleSpec → Report
lint_overlaps first [] = []
lint_overlaps first (s ∷ rest) =
    let name = lint_name s.name in
    elim (lookup (spec_signature s) first) [
      | some prior ↦
          finding Severity.warn name (Message.same_target prior) ++ lint_overlaps first rest
      | none ↦ lint_overlaps (insert (spec_signature s) name first) rest
    ]

lint_each : (Text → Option ℤ) → List RuleSpec → Report
lint_each parse_duration [] = []
lint_each parse_duration (s ∷ rest) = lint_spec parse_duration s ++ lint_each parse_duration rest

unfoldable pub lint_specs : (Text → Option ℤ) → List RuleSpec → Report
unfolding lint_each
lint_specs parse_duration specs = lint_each parse_duration specs ++ lint_overlaps [] specs

-- lintmode.go.
pub data LintMode : Type 0 where
  lint_off lint_warn lint_reject : LintMode

-- `LintGate`: the report, and whether the error that wraps `ErrLintRejected` comes with it.
unfoldable pub lint_gate : (Text → Option ℤ) → LintMode → List RuleSpec → Report × Bool
lint_gate parse_duration lint_off specs = ([], false)
lint_gate parse_duration lint_warn specs = (lint_specs parse_duration specs, false)
lint_gate parse_duration lint_reject specs =
    let rep = lint_specs parse_duration specs in (rep, not (is_ok rep))
