-- ===== src/Source/Http.antt =====
-- The admin endpoint (source/http/handler.go): the handler's methods on its rules and its engine.
pub mod Table
pub mod Rebuild
pub mod Answering
pub mod Requests
pub mod Edits
pub mod Serve
use chaotic.Base.{
  ℕ, zero, suc, ◌+◌, ◌/◌, ◌%◌, Bool, true, false, not, if◌then◌else◌, ltb, List, [], ◌∷◌, ◌++◌,
  Option, none, some, is_some, Text, Map, bytes, text_eq, lookup, insert, delete, length, take,
  drop,
}
use chaotic.Engine.Rule.{Rule, Store}
use chaotic.Engine.World.{Engine, replace_rules, all_hits, hits, is_nil}
use chaotic.Engine.Spec.{RuleSpec, Library}
use chaotic.Engine.Spec.Build.{build_rule, built, invalid}
use chaotic.Engine.Lint.{Report, LintMode, lint_off, lint_gate}
use chaotic.Terms.Parse.{Literals, Parsed, got, fail, blank_spec, parse}

-- What the handler calls: the libraries of the rules, and yaml.v3 on a `ruleDoc`; `none` is an
-- error.
pub record Imports : Type 0 where
  pub std : Library
  pub lits : Literals
  pub unmarshal : Text → Option (List RuleSpec)
  pub marshal : List RuleSpec → Option Text

-- `Handler`, with the engine that it is bound to. `current` is `none` before the first rebuild.
pub record Handler : Type 0 where
  pub eng : Engine
  pub store : Store
  pub writable : Bool
  pub auth : Option (Text → Bool)
  pub lint : LintMode
  pub order : List Text
  pub specs : Map RuleSpec
  pub current : Option Text

-- `New`, with what its options set.
unfoldable pub new : Engine → Store → Bool → Option (Text → Bool) → LintMode → Handler
new e s writable auth lint = record {
  eng = e;
  store = s;
  writable = writable;
  auth = auth;
  lint = lint;
  order = [];
  specs = [];
  current = none;
}

-- What the server writes, and the panic of a method.
pub data Response : Type 0 where
  unauthorized read_only bad_request not_found internal_error no_content : Response
  findings : Report → Response
  document : Text → Response
  listing : List (Text × ℕ) → Response
  count_of : ℕ → Response
  panicked : Response

-- The status code; the server closes the connection on a panic.
unfoldable pub status : Response → ℕ
status unauthorized = 401
status read_only = 405
status bad_request = 400
status not_found = 404
status internal_error = 500
status no_content = 204
status (findings rep) = 200
status (document doc) = 200
status (listing items) = 200
status (count_of n) = 200
status panicked = 0

-- A request after the routing of `http.ServeMux`, with its body; `none` is a body that does not
-- arrive in full.
pub data Route : Type 0 where
  get_whole list_rules : Route
  post_whole : Option Text → Route
  rule_count : Text → Route
  put_rule : Text → Option Text → Route
  delete_rule : Text → Route

-- `io.ReadAll(http.MaxBytesReader(w, r.Body, 1<<20))`.
unfoldable pub read_body : Option Text → Option Text
read_body none = none
read_body (some body) = if ltb 1048576 (length body) then none else some body

-- `writeLintFindings`, and the status without findings.
unfoldable pub write_lint_findings : Report → Response
write_lint_findings [] = no_content
write_lint_findings (f ∷ rep) = findings (f ∷ rep)

-- `h.specs[name]`: the zero value on a missing name.
unfoldable pub spec_of : Text → Map RuleSpec → RuleSpec
spec_of name specs = elim (lookup name specs) [ none ↦ blank_spec | some spec ↦ spec ]

unfoldable pub specs_of : List Text → Map RuleSpec → List RuleSpec
unfolding spec_of
specs_of [] specs = []
specs_of (name ∷ names) specs = spec_of name specs ∷ specs_of names specs

-- The rules of the specs, or the first error, or a panic.
pub data Rebuilt : Type 0 where
  rules : List Rule → Store → Rebuilt
  refused : Rebuilt
  panic : Rebuilt

unfoldable pub add_built : Rule → Rebuilt → Rebuilt
add_built r (rules rs s) = rules (r ∷ rs) s
add_built r refused = refused
add_built r panic = panic

-- The first loop of `rebuildLocked`.
unfoldable pub build_each : Library → List RuleSpec → Store → Rebuilt
unfolding add_built
build_each std [] s = rules [] s
build_each std (spec ∷ specs) s = elim (build_rule std spec s) [
  | none ↦ panic
  | some (invalid errs) ↦ refused
  | some (built r s') ↦ add_built r (build_each std specs s')
]

-- How `rebuildLocked` ends.
pub data Ending : Type 0 where
  done failed paniced : Ending

-- The rest of `rebuildLocked`: the engine's rules are replaced before the document is written.
unfoldable pub install : (List RuleSpec → Option Text) → Rebuilt → Handler → Handler × Ending
install marshal panic h = (h, paniced)
install marshal refused h = (h, failed)
install marshal (rules rs s) h =
    let h' = record h { eng = replace_rules rs h.eng; store = s } in
    elim (marshal (specs_of h.order h.specs)) [
      | none ↦ (h', failed)
      | some doc ↦ (record h' { current = some doc }, done)
    ]

unfoldable pub rebuild_locked : Imports → Handler → Handler × Ending
unfolding build_each install specs_of
rebuild_locked lib h = install lib.marshal (build_each lib.std (specs_of h.order h.specs) h.store) h

-- `authorized`.
unfoldable pub authorized : (Text → Bool) → Text → Bool
authorized check header =
    if ltb 7 (length header)
    then (if text_eq (take 7 header) (bytes "Bearer ") then check (drop 7 header) else false)
    else false

unfoldable pub get_document : Option Text → Response
get_document none = document (bytes "rules: []\n")
get_document (some doc) = document doc

-- The decimal digits of a number, on fuel.
decimal_onto : ℕ → ℕ → Text → Text
decimal_onto zero n t = t
decimal_onto (suc fuel) n t =
    let t' = (b'0' + n % 10) ∷ t in
    let more = decimal_onto fuel (n / 10) t' in if ltb n 10 then t' else more

-- `fmt.Sprintf("rule-%d", i)`.
unfoldable pub default_name : ℕ → Text
unfolding decimal_onto
default_name i = bytes "rule-" ++ decimal_onto (suc i) i []

unfoldable pub with_name : Text → RuleSpec → RuleSpec
with_name name spec = record spec { name = name }

unfoldable pub named_spec : ℕ → RuleSpec → RuleSpec
unfolding default_name with_name
named_spec i spec = if is_nil spec.name then with_name (default_name i) spec else spec

-- The end of `order`, with a name that is new.
unfoldable pub add_name : Text → List Text → Map RuleSpec → List Text
add_name name order specs = if is_some (lookup name specs) then order else order ++ name ∷ []

-- The loop of `postWhole` over the document: the order and the specs by name. A later spec of the
-- same name replaces an earlier one.
unfoldable pub index_specs : ℕ → List RuleSpec → List Text → Map RuleSpec → List Text × Map RuleSpec
unfolding named_spec add_name
index_specs i [] order specs = (order, specs)
index_specs i (spec ∷ rest) order specs =
    let spec' = named_spec i spec in
    index_specs (suc i) rest (add_name spec'.name order specs) (insert spec'.name spec' specs)

-- The end of `postWhole`: a failed rebuild rolls the specs back.
unfoldable pub finish_post : Report → Handler → Handler × Ending → Handler × Response
unfolding write_lint_findings
finish_post rep old (h, done) = (h, write_lint_findings rep)
finish_post rep old (h, failed) = (record h { order = old.order; specs = old.specs }, bad_request)
finish_post rep old (h, paniced) = (h, panicked)

unfoldable pub post_indexed : Imports → List Text × Map RuleSpec → Handler → Handler × Response
unfolding rebuild_locked finish_post specs_of
post_indexed lib (order, specs) h =
    let verdict = lint_gate lib.std.parse_duration h.lint (specs_of order specs) in
    if verdict.1
    then (h, bad_request)
    else finish_post verdict.0 h (rebuild_locked lib (record h { order = order; specs = specs }))

unfoldable pub post_body : Imports → Option Text → Handler → Handler × Response
unfolding post_indexed index_specs
post_body lib none h = (h, bad_request)
post_body lib (some body) h = elim (lib.unmarshal body) [
  | none ↦ (h, bad_request)
  | some doc ↦ post_indexed lib (index_specs 0 doc [] []) h
]

-- The end of `putRule` and of `deleteRule`.
unfoldable pub finish_put : Report → Handler × Ending → Handler × Response
unfolding write_lint_findings
finish_put rep (h, done) = (h, write_lint_findings rep)
finish_put rep (h, failed) = (h, internal_error)
finish_put rep (h, paniced) = (h, panicked)

-- `putRule` from the lint gate on.
unfoldable pub put_checked : Imports → RuleSpec → Handler → Handler × Response
unfolding rebuild_locked finish_put add_name
put_checked lib spec h =
    let verdict = lint_gate lib.std.parse_duration h.lint (spec ∷ []) in
    if verdict.1
    then (h, bad_request)
    else finish_put verdict.0 (
        rebuild_locked lib (record h {
          order = add_name spec.name h.order h.specs;
          specs = insert spec.name spec h.specs;
        }))

-- `putRule` with the spec that was parsed: it must build.
unfoldable pub put_spec : Imports → RuleSpec → Handler → Handler × Response
unfolding put_checked
put_spec lib spec h = elim (build_rule lib.std spec h.store) [
  | none ↦ (h, panicked)
  | some (invalid errs) ↦ (h, bad_request)
  | some (built r s) ↦ put_checked lib spec (record h { store = s })
]

unfoldable pub put_parsed :
    Imports → Text → Parsed (List RuleSpec × Report) → Handler → Handler × Response
unfolding put_spec with_name
put_parsed lib name (fail e) h = (h, bad_request)
put_parsed lib name (got ([], rep)) h = (h, bad_request)
put_parsed lib name (got (spec ∷ [], rep)) h = put_spec lib (with_name name spec) h
put_parsed lib name (got (spec ∷ (next ∷ rest), rep)) h = (h, bad_request)

unfoldable pub put_body : Imports → Text → Option Text → Handler → Handler × Response
unfolding put_parsed
put_body lib name none h = (h, bad_request)
put_body lib name (some body) h = put_parsed lib name (parse lib.std lib.lits lint_off body) h

-- `removeName`.
unfoldable pub remove_name : Text → List Text → List Text
remove_name name [] = []
remove_name name (n ∷ names) =
    let rest = remove_name name names in if text_eq n name then rest else n ∷ rest

unfoldable pub delete_spec : Imports → Text → Handler → Handler × Response
unfolding rebuild_locked finish_put remove_name
delete_spec lib name h =
    if is_some (lookup name h.specs)
    then finish_put [] (
        rebuild_locked lib
          (record h { order = remove_name name h.order; specs = delete name h.specs }))
    else (h, not_found)

-- `listRules`: a name that the engine does not count has 0.
unfoldable pub list_hits : List Text → Map ℕ → List (Text × ℕ)
list_hits [] counts = []
list_hits (name ∷ names) counts =
    (name, elim (lookup name counts) [ none ↦ 0 | some n ↦ n ]) ∷ list_hits names counts

-- The routes of `New`.
unfoldable pub dispatch : Imports → Route → Handler → Handler × Response
unfolding get_document post_body put_body delete_spec read_body list_hits
dispatch lib get_whole h = (h, get_document h.current)
dispatch lib list_rules h = (h, listing (list_hits h.order (all_hits h.eng)))
dispatch lib (post_whole body) h =
    if h.writable then post_body lib (read_body body) h else (h, read_only)
dispatch lib (rule_count name) h =
    if is_some (lookup name h.specs) then (h, count_of (hits name h.eng)) else (h, not_found)
dispatch lib (put_rule name body) h =
    if h.writable then put_body lib name (read_body body) h else (h, read_only)
dispatch lib (delete_rule name) h = if h.writable then delete_spec lib name h else (h, read_only)

-- `ServeHTTP`, given the Authorization header.
unfoldable pub serve_http : Imports → Text → Route → Handler → Handler × Response
unfolding dispatch authorized
serve_http lib header route h = elim h.auth [
  | none ↦ dispatch lib route h
  | some check ↦ if authorized check header then dispatch lib route h else (h, unauthorized)
]
