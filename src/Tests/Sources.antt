-- ===== src/Tests/Sources.antt =====
-- Requests and files at concrete inputs.
use chaotic.Base.{
  ◌≤◌, ◌<◌, ◌≡◌, ◌≢◌, ◌⊎◌, refl, true, false, List, [], ◌∷◌, Option, none, some, Text, bytes, ◌==◌,
  if◌then◌else◌,
}
use chaotic.Engine.Spec.{RuleSpec}
use chaotic.Engine.Spec.Build.{build_rule}
use chaotic.Engine.Spec.Build.Total.{Builds, spec_errors, build_rule-Builds}
use chaotic.Engine.Lint.{lint_warn, lint_reject}
use chaotic.Source.Http.{Imports, Handler, Route, put_rule, new, serve_http, status, panicked}
use chaotic.Source.Http.Edits.{Effect}
use chaotic.Source.Http.Answering.{IsValid, IsSame, view_of}
use chaotic.Source.Http.Serve.{new-IsValid, serve_http-IsValid, serve_http-refines}
use chaotic.Source.File.{load, watch, base, Target, Signal, event}
use chaotic.Source.File.Loading.{admitted, Agrees, load-Agrees}
use chaotic.Source.File.Watching.{Runs, last_admitted, watch-Runs}
use chaotic.Tests.{engine, store}
use chaotic.Tests.Config.{std, lits, spec}

-- A document of one byte, the number of its rules, or none that can be read.
abbrev unmarshal : Text → Option (List RuleSpec)
unmarshal [] = none
unmarshal (c ∷ _) = if c == b'1' then some (spec ∷ []) else some []

abbrev lib : Imports
lib = record {
  std = std;
  lits = lits;
  unmarshal = unmarshal;
  marshal = λ specs. some (bytes "rules");
}

abbrev handler : Handler
handler = new engine store true none lint_warn

abbrev request : Route
request = put_rule (bytes "r") (some (bytes "a:kind(sql)=2*conndrop"))

serve_http-IsValid_example :
    IsValid lib (serve_http lib [] request handler).0
    × ((serve_http lib [] request handler).1 ≢ panicked)
serve_http-IsValid_example =
    serve_http-IsValid lib [] request handler (λ specs. refl)
      (new-IsValid lib engine store true none lint_warn)

serve_http-refines_example :
    let (h', r) = serve_http lib [] request handler in
    (400 ≤ status r) × IsSame handler h'
    ⊎ (status r < 400) × Effect lib request (view_of handler) (view_of h')
serve_http-refines_example =
    serve_http-refines lib [] request handler (λ specs. refl)
      (new-IsValid lib engine store true none lint_warn)

load-Agrees_example :
    Agrees std store
      (admitted std unmarshal lint_reject (some (bytes "1")))
      (load std unmarshal lint_reject (some (bytes "1")) store)
load-Agrees_example = load-Agrees std unmarshal lint_reject (some (bytes "1")) store

abbrev target : Target
target = record { eng = engine; store = store }

abbrev path : Text
path = bytes "/etc/rules.yaml"

abbrev signals : List Signal
signals =
    event (record { name = path; is_write = true; is_create = false; content = some (bytes "0") })
    ∷ event (record { name = path; is_write = true; is_create = false; content = none })
    ∷ []

watch-Runs_example :
    ((specs : List RuleSpec)
      → admitted std unmarshal lint_warn (some (bytes "1")) ≡ some specs
      → Runs std
          (last_admitted std unmarshal lint_warn (base path) signals specs)
          (watch std unmarshal lint_warn path (some (bytes "1")) signals target).0)
    × (admitted std unmarshal lint_warn (some (bytes "1")) ≡ none
        → watch std unmarshal lint_warn path (some (bytes "1")) signals target ≡ (target, false))
watch-Runs_example = watch-Runs std unmarshal lint_warn path (some (bytes "1")) signals target

build_rule-Builds_example : Builds spec.name (spec_errors std spec) (build_rule std spec store)
build_rule-Builds_example = build_rule-Builds std spec store
