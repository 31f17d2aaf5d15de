-- ===== src/Source/File.antt =====
-- Rules from a YAML file, and its watcher (source/file/source.go, watch.go, lint.go).
pub mod Loading
pub mod Watching
use chaotic.Base.{
  ℕ, Bool, true, false, not, ◌||◌, if◌then◌else◌, ◌==◌, List, [], ◌∷◌, ◌++◌, Option, none, some,
  is_some, Text, Map, bytes, text_eq, ℤ,
}
use chaotic.Engine.Rule.{Rule, Store}
use chaotic.Engine.World.{Engine, replace_rules, is_nil}
use chaotic.Engine.Spec.{RuleSpec, Library, SpecErr}
use chaotic.Engine.Spec.Build.{Built, built, invalid, build_rule}
use chaotic.Engine.Lint.{Report, LintMode, lint_gate}

-- The errors of a load: reading the file, yaml.v3, the lint gate, a name that comes twice, a spec
-- that does not build; and the panic that `reload` turns into an error.
pub data LoadErr : Type 0 where
  unreadable malformed : LoadErr
  rejected : Report → LoadErr
  duplicate : Text → LoadErr
  refused : Text → List SpecErr → LoadErr
  panicked : LoadErr

pub data Loaded : Type 0 where
  loaded : List Rule → Store → Loaded
  fails : LoadErr → Loaded

unfoldable pub seen_before : Text → List Text → Bool
seen_before name [] = false
seen_before name (n ∷ seen) =
    let rest = seen_before name seen in if text_eq name n then true else rest

-- A name that has been seen; the empty name may come again.
unfoldable pub is_duplicate : Text → List Text → Bool
unfolding seen_before
is_duplicate name seen = if is_nil name then false else seen_before name seen

unfoldable pub add_seen : Text → List Text → List Text
add_seen name seen = if is_nil name then seen else name ∷ seen

unfoldable pub add_rule : Rule → Loaded → Loaded
add_rule r (loaded rs s) = loaded (r ∷ rs) s
add_rule r (fails e) = fails e

-- The loop of `Parse` over the specs.
unfoldable pub build_rules : Library → List Text → List RuleSpec → Store → Loaded
unfolding is_duplicate add_seen add_rule
build_rules std seen [] s = loaded [] s
build_rules std seen (spec ∷ specs) s =
    if is_duplicate spec.name seen
    then fails (duplicate spec.name)
    else elim (build_rule std spec s) [
      | none ↦ fails panicked
      | some (invalid errs) ↦ fails (refused spec.name errs)
      | some (built r s') ↦ add_rule r (build_rules std (add_seen spec.name seen) specs s')
    ]

unfoldable pub gate_specs : Library → List RuleSpec → Store → Report × Bool → Loaded
unfolding build_rules
gate_specs std specs s (rep, reject) =
    if reject then fails (rejected rep) else build_rules std [] specs s

-- `Parse`, given yaml.v3 on a `Document`; `none` is its error.
unfoldable pub parse : Library → (Text → Option (List RuleSpec)) → LintMode → Text → Store → Loaded
unfolding gate_specs
parse std unmarshal lint doc s = elim (unmarshal doc) [
  | none ↦ fails malformed
  | some specs ↦ gate_specs std specs s (lint_gate std.parse_duration lint specs)
]

-- `Load`, of a file with this content; `none` cannot be read.
unfoldable pub load :
    Library → (Text → Option (List RuleSpec)) → LintMode → Option Text → Store → Loaded
unfolding parse
load std unmarshal lint none s = fails unreadable
load std unmarshal lint (some doc) s = parse std unmarshal lint doc s

-- The engine that is watched over, with the store of its rules.
pub record Target : Type 0 where
  pub eng : Engine
  pub store : Store

unfoldable pub swap : Loaded → Target → Target × Bool
swap (fails e) t = (t, false)
swap (loaded rs s) t = (record t { eng = replace_rules rs t.eng; store = s }, true)

-- `reload`; false is its error.
unfoldable pub reload :
    Library → (Text → Option (List RuleSpec)) → LintMode → Option Text → Target → Target × Bool
unfolding load swap
reload std unmarshal lint content t = swap (load std unmarshal lint content t.store) t

-- `filepath.Base` on Unix: what follows the last slash, without trailing slashes.
base_onto : Text → Text → Text
base_onto [] part = part
base_onto (c ∷ rest) part =
    let before = base_onto rest (c ∷ part) in if c == b'/' then part else before

trim_slashes : Text → Text
trim_slashes [] = []
trim_slashes (c ∷ rest) = let trimmed = trim_slashes rest in if c == b'/' then trimmed else c ∷ rest

reverse_onto : Text → Text → Text
reverse_onto [] t = t
reverse_onto (c ∷ s) t = reverse_onto s (c ∷ t)

base_of : Text → Text
unfolding base_onto
base_of [] = bytes "/"
base_of (c ∷ reversed) = base_onto (c ∷ reversed) []

unfoldable pub base : Text → Text
unfolding base_of trim_slashes reverse_onto
base path = if is_nil path then bytes "." else base_of (trim_slashes (reverse_onto path []))

-- An event of fsnotify: the file, whether its operation has the bits of Write and of Create, and the
-- content of the watched file when it is read.
pub record Event : Type 0 where
  pub name : Text
  pub is_write : Bool
  pub is_create : Bool
  pub content : Option Text

-- `handleFileEvent`; the log is not modelled.
unfoldable pub handle_file_event :
    Library → (Text → Option (List RuleSpec)) → LintMode → Text → Event → Target → Target
unfolding reload base
handle_file_event std unmarshal lint file ev t =
    if text_eq (base ev.name) file
    then (if ev.is_write || ev.is_create then (reload std unmarshal lint ev.content t).0 else t)
    else t

-- What the select of `Watch` takes: an event, an error of the watcher, the end of the context, or a
-- closed channel.
pub data Signal : Type 0 where
  event : Event → Signal
  watcher_error cancelled closed : Signal

-- The loop of `Watch`, on the signals in their order; at the end of the list it still waits.
unfoldable pub watch_loop :
    Library → (Text → Option (List RuleSpec)) → LintMode → Text → List Signal → Target → Target
unfolding handle_file_event
watch_loop std unmarshal lint file [] t = t
watch_loop std unmarshal lint file (event ev ∷ rest) t =
    watch_loop std unmarshal lint file rest (handle_file_event std unmarshal lint file ev t)
watch_loop std unmarshal lint file (watcher_error ∷ rest) t =
    watch_loop std unmarshal lint file rest t
watch_loop std unmarshal lint file (cancelled ∷ rest) t = t
watch_loop std unmarshal lint file (closed ∷ rest) t = t

-- `Watch`, whose watcher can be set up: the engine, and whether the loop was reached.
unfoldable pub watch :
    Library
    → (Text → Option (List RuleSpec))
    → LintMode
    → Text
    → Option Text
    → List Signal
    → Target
    → Target × Bool
unfolding reload watch_loop base
watch std unmarshal lint path content signals t =
    let first = reload std unmarshal lint content t in
    if first.1 then (watch_loop std unmarshal lint (base path) signals first.0, true) else first
