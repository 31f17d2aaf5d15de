-- ===== src/Engine/Lint/Rules.antt =====
-- Introspection and the linter of programmatic rules (engine/introspect.go, `Lint` of engine/lint.go).
use chaotic.Base.{
  Bool, true, false, ◌&&◌, if◌then◌else◌, List, [], ◌∷◌, ◌++◌, map, none, some, Text,
}
use chaotic.Fault
use chaotic.Fault.{Fault, kind_of}
use chaotic.Engine.Counter.{Counter}
use chaotic.Engine.Staged.{Stage, is_nil}
use chaotic.Engine.Rule.{Rule, Store}
use chaotic.Engine.Lint.{Severity, Message, Report, terminal_kind_name, lint_name}

pub data CounterKind : Type 0 where
  counter_always counter_times counter_range counter_probability counter_sequence : CounterKind
  counter_staged : CounterKind

pub record RuleInfo : Type 0 where
  pub name : Text
  pub unconstrained : Bool
  pub counter : CounterKind
  pub faults : List Fault.Kind

unfoldable pub counter_kind_of : Counter → CounterKind
counter_kind_of Counter.always = counter_always
counter_kind_of (Counter.times n cur) = counter_times
counter_kind_of (Counter.range from to cur) = counter_range
counter_kind_of (Counter.prob p draws cur) = counter_probability
counter_kind_of (Counter.sequence fire cur) = counter_sequence

stage_kinds : List Stage → List Fault.Kind
stage_kinds [] = []
stage_kinds (st ∷ rest) = map kind_of st.faults ++ stage_kinds rest

-- `Info` of a rule whose objects are in the store.
unfoldable pub info : Rule → Store → RuleInfo
unfolding counter_kind_of stage_kinds
info r s = elim r.staged_at [
  | some p ↦ record {
    name = r.name;
    unconstrained = is_nil r.matchers;
    counter = counter_staged;
    faults = stage_kinds (s.stageds p).stages;
  }
  | none ↦ record {
    name = r.name;
    unconstrained = is_nil r.matchers;
    counter = counter_kind_of (s.counters r.counter);
    faults = map kind_of r.faults;
  }
]

terminal_names : List Fault.Kind → List Text
terminal_names [] = []
terminal_names (k ∷ ks) = elim (terminal_kind_name k) [
  | none ↦ terminal_names ks
  | some n ↦ n ∷ terminal_names ks
]

abbrev is_always : CounterKind → Bool
is_always counter_always = true
is_always _ = false

lint_info : RuleInfo → Report
unfolding terminal_names
lint_info i =
    if i.unconstrained && is_always i.counter
    then (if is_nil (terminal_names i.faults)
        then record {
          severity = Severity.warn;
          rule = lint_name i.name;
          message = Message.matches_all;
        }
          ∷ []
        else record {
          severity = Severity.high;
          rule = lint_name i.name;
          message = Message.matches_all_terminal (terminal_names i.faults);
        }
          ∷ [])
    else []

-- `Lint`.
unfoldable pub lint : List Rule → Store → Report
unfolding lint_info
lint [] s = []
lint (r ∷ rs) s = lint_info (info r s) ++ lint rs s
