-- ===== src/Tests/Config.antt =====
-- Declarative rules, the linter and the compact syntax.
use chaotic.Base.{
  ℕ, ◌≡◌, ◌≢◌, ◌≤◌, ◌+◌, refl, Bool, true, false, ◌&&◌, List, [], ◌∷◌, Option, none, some, Text,
  bytes, pos, ℤ, All, any, arith, scaled, ◌==◌, if◌then◌else◌,
}
use chaotic.Fault.{Any, Fault, draw}
use chaotic.Engine.Spec.{RuleSpec, FaultSpec, Library}
use chaotic.Engine.Spec.Faults.{build_fault}
use chaotic.Engine.Spec.Faults.Bounds.{slept-build_fault}
use chaotic.Fault.{apply}
use chaotic.Tests.{quiet, still}
use chaotic.Engine.Lint.{lint_gate, lint_reject}
use chaotic.Engine.Lint.Strict.{is_hazard, is_reject, lint_gate-rejects}
use chaotic.Engine.Lint.{is_terminal_fault_type}
use chaotic.Engine.Lint.Terminal.{is_terminal_fault_type-build_fault}
use chaotic.Terms.{split_top, index_top}
use chaotic.Terms.Scan.{join, split_top-join}
use chaotic.Terms.Parse.{Literals, parse, blank_spec}
use chaotic.Terms.Parse.Laws.{Holds, AreRules, PassesGate, parse-accepts}

-- Three units, or an hour.
abbrev parse_word : Text → Option ℤ
parse_word [] = none
parse_word (c ∷ _) = if c == b'3' then some (pos 3) else some (pos 3600000000000)

abbrev pub std : Library
std = record { parse_duration = parse_word; path_match = λ p s. some true; pcg = λ s k. 0 }

abbrev pub lits : Literals
lits = record { parse_percent = λ s. some (scaled (pos 0)); unquote_go = λ s. some s }

abbrev jitter : FaultSpec
jitter = record {
  type = bytes "jittered";
  duration = [];
  min = bytes "1h";
  max = bytes "3ns";
  message = [];
  value = [];
  rate = pos 0;
  limit = pos 0;
}

abbrev lag : FaultSpec
lag = record jitter { type = bytes "latency"; duration = bytes "3ns" }

abbrev crash : FaultSpec
crash = record jitter { type = bytes "panic" }

abbrev pub spec : RuleSpec
spec = record blank_spec { name = bytes "r"; faults = crash ∷ lag ∷ [] }

slept-build_fault_example : (apply quiet (Fault.latency (pos 3)) still).slept ≤ 300000000000
unfolding build_fault chaotic.Base.text_eq
slept-build_fault_example =
    slept-build_fault std lag (Fault.latency (pos 3)) quiet still refl tt (λ n h. h) (λ p k n h. h)

lint_gate-rejects_example :
    (lint_gate parse_word lint_reject (spec ∷ [])).1
    ≡ is_reject lint_reject && any is_hazard (spec ∷ [])
lint_gate-rejects_example = lint_gate-rejects parse_word lint_reject (spec ∷ [])

abbrev text : Text
text = bytes "a:kind(sql)=2*error(\"x;y\"); conndrop"

split_top-join_example :
    (join (b';' ∷ []) (split_top text b';') ≡ text)
    × All (λ p. index_top p b';' ≡ none) (split_top text b';')
split_top-join_example = split_top-join text b';'

parse-accepts_example :
    Holds
      (λ (specs, rep). AreRules (split_top text b';') specs × PassesGate lint_reject specs)
      (parse std lits lint_reject text)
parse-accepts_example = parse-accepts std lits lint_reject text

is_terminal_fault_type-build_fault_example : is_terminal_fault_type (bytes "panic") ≡ true
unfolding build_fault chaotic.Base.text_eq chaotic.Engine.Lint.terminal_kind_name
    chaotic.Fault.kind_of
is_terminal_fault_type-build_fault_example =
    is_terminal_fault_type-build_fault std crash (Fault.panic (Any.text [])) refl
