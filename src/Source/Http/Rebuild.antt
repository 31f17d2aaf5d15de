-- ===== src/Source/Http/Rebuild.antt =====
-- `rebuildLocked`, and how each request leaves the handler.
use chaotic.Base.{
  ◌≡◌, refl, sym, true, false, List, [], ◌∷◌, Option, none, some, is_some, Text, map, All, arith,
}
use chaotic.Engine.Rule.{Rule, Store}
use chaotic.Engine.Spec.{RuleSpec, Library}
use chaotic.Engine.Spec.Build.{Built, built, invalid, build_rule}
use chaotic.Engine.Spec.Build.Sequence.{AreBuiltFrom}
use chaotic.Engine.Spec.Build.Total.{spec_errors, Builds, build_rule-Builds}
use chaotic.Engine.World.{is_nil, rules_for, replace_rules}
use chaotic.Engine.World.Admin.{IsRegistered, register_all-adds}
use chaotic.Source.Http.{
  Imports, Handler, Rebuilt, rules, refused, panic, Ending, done, failed, paniced, build_each,
  add_built, install, rebuild_locked, specs_of,
}
use chaotic.Source.Http.Table.{HasNoErrors}

abbrev name_of : Rule → Text
name_of r = r.name

-- Rules with the names of the specs, as `BuildRule` gives them for the specs, which have no errors; or no rules where some spec has errors.
abbrev AreBuilt : Library → List RuleSpec → Store → Rebuilt → Type 0
AreBuilt std specs s (rules rs s') =
    (map (λ (r : Rule). r.name) rs ≡ map (λ (spec : RuleSpec). spec.name) specs)
    × All (HasNoErrors std) specs
    × AreBuiltFrom std specs s rs s'
AreBuilt std specs s refused = ¬ (All (HasNoErrors std) specs)
AreBuilt std specs s panic = ⊥

add_built-AreBuilt :
    (std : Library) (spec : RuleSpec) (specs : List RuleSpec) (r : Rule) (s t : Store)
    (out : Rebuilt)
    → build_rule std spec s ≡ some (built r t)
    → r.name ≡ spec.name
    → spec_errors std spec ≡ []
    → AreBuilt std specs t out
    → AreBuilt std (spec ∷ specs) s (add_built r out)
unfolding add_built
add_built-AreBuilt std spec specs r s t (rules rs s') b n e h =
    (rw (n, h.0) refl, (e, h.1), (t, b, h.2))
add_built-AreBuilt std spec specs r s t refused b n e h = λ all. h all.1
add_built-AreBuilt std spec specs r s t panic b n e h = h

not_nil :
    (std : Library) (spec : RuleSpec)
    → is_nil (spec_errors std spec) ≡ false
    → ¬ (spec_errors std spec ≡ [])
not_nil std spec h k = ground (arith, h, k)

build_each-AreBuilt :
    (std : Library) (specs : List RuleSpec) (s : Store)
    → AreBuilt std specs s (build_each std specs s)
unfolding build_each
build_each-AreBuilt std [] s = (refl, tt, refl)
build_each-AreBuilt std (spec ∷ specs) s =
    go (build_rule std spec s) refl (build_rule-Builds std spec s)
      (λ s'. build_each-AreBuilt std specs s')
  where
    go :
        (o : Option Built)
        → build_rule std spec s ≡ o
        → Builds spec.name (spec_errors std spec) o
        → ((s' : Store) → AreBuilt std specs s' (build_each std specs s'))
        → AreBuilt std (spec ∷ specs) s (elim o [
          | none ↦ panic
          | some (invalid errs) ↦ refused
          | some (built r s') ↦ add_built r (build_each std specs s')
        ])
    go none e h rest = h
    go (some (invalid errs)) e h rest = λ all. not_nil std spec h.1 all.0
    go (some (built r s')) e h rest = add_built-AreBuilt std spec specs r s s' _ e h.0 h.1 (rest s')

-- The document is always written.
abbrev pub AlwaysWrites : Imports → Type 0
AlwaysWrites lib = (specs : List RuleSpec) → is_some (lib.marshal specs) ≡ true

-- The engine has the rules of the specs, in their order, as `BuildRule` gave them from some store on,
-- and each with a hit counter, and the
-- document served is theirs.
pub record IsLive (lib : Imports) (h : Handler) : Type 0 where
  pub served : h.current ≡ lib.marshal (specs_of h.order h.specs)
  pub installed :
      map (λ (r : Rule). r.name) (rules_for h.eng.rules)
      ≡ map (λ (spec : RuleSpec). spec.name) (specs_of h.order h.specs)
  pub made :
      (s s' : Store) × AreBuiltFrom lib.std (specs_of h.order h.specs) s (rules_for h.eng.rules) s'
  pub counted : IsRegistered h.eng

-- How a rebuild ends: it installs the specs, which have no errors, or changes nothing, as some has.
abbrev pub Rebuilds : Imports → Handler → Handler × Ending → Type 0
Rebuilds lib h (h', done) =
    IsLive lib h'
    × (h'.order ≡ h.order)
    × (h'.specs ≡ h.specs)
    × All (HasNoErrors lib.std) (specs_of h.order h.specs)
Rebuilds lib h (h', failed) = (h' ≡ h) × (¬ (All (HasNoErrors lib.std) (specs_of h.order h.specs)))
Rebuilds lib h (h', paniced) = ⊥

install_written :
    (lib : Imports) (h : Handler) (rs : List Rule) (s : Store) (out : Option Text)
    → lib.marshal (specs_of h.order h.specs) ≡ out
    → is_some out ≡ true
    → AreBuilt lib.std (specs_of h.order h.specs) h.store (rules rs s)
    → Rebuilds lib h (elim out [
      | none ↦ (record h { eng = replace_rules rs h.eng; store = s }, failed)
      | some doc ↦ (record h { eng = replace_rules rs h.eng; store = s; current = some doc }, done)
    ])
unfolding replace_rules rules_for
install_written lib h rs s none e k b = cc
install_written lib h rs s (some doc) e k b = (
  record {
    served = sym e;
    installed = b.0;
    made = (h.store, s, b.2);
    counted = register_all-adds rs [];
  },
  refl,
  refl,
  b.1,
)

install-Rebuilds :
    (lib : Imports) (h : Handler) (out : Rebuilt)
    → AlwaysWrites lib
    → AreBuilt lib.std (specs_of h.order h.specs) h.store out
    → Rebuilds lib h (install lib.marshal out h)
unfolding install
install-Rebuilds lib h panic w b = b
install-Rebuilds lib h refused w b = (refl, b)
install-Rebuilds lib h (rules rs s) w b =
    install_written lib h rs s (lib.marshal (specs_of h.order h.specs)) refl
      (w (specs_of h.order h.specs)) b

pub rebuild_locked-Rebuilds :
    (lib : Imports) (h : Handler) → AlwaysWrites lib → Rebuilds lib h (rebuild_locked lib h)
unfolding rebuild_locked
rebuild_locked-Rebuilds lib h w =
    install-Rebuilds lib h (build_each lib.std (specs_of h.order h.specs) h.store) w
      (build_each-AreBuilt lib.std (specs_of h.order h.specs) h.store)
