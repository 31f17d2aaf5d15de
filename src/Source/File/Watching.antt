-- ===== src/Source/File/Watching.antt =====
-- What the watcher keeps: the rules of the last document that loads.
use chaotic.Base.{
  ◌≡◌, refl, Bool, true, false, ◌||◌, if◌then◌else◌, List, [], ◌∷◌, Option, none, some, Text,
  text_eq, Option-cases, inl, inr,
}
use mathlib.Core.Path.{subst}
use chaotic.Engine.Rule.{Store}
use chaotic.Engine.World.{rules_for, replace_rules}
use chaotic.Engine.World.Admin.{IsRegistered, register_all-adds}
use chaotic.Engine.Spec.{RuleSpec, Library}
use chaotic.Engine.Lint.{LintMode}
use chaotic.Source.File.{
  Loaded, loaded, fails, Target, swap, reload, base, handle_file_event, Signal, event,
  watcher_error, cancelled, closed, watch_loop, watch,
}
use chaotic.Source.File.Loading.{admitted, Agrees, AreOf, load-Agrees}

-- The engine runs the rules of the specs, as `BuildRule` gave them from some store on, each with a
-- hit counter.
abbrev pub Runs : Library → List RuleSpec → Target → Type 0
Runs std specs t =
    ((s : Store) × AreOf std specs s (rules_for t.eng.rules) t.store) × IsRegistered t.eng

abbrev pub or_else : Option (List RuleSpec) → List RuleSpec → List RuleSpec
or_else none specs = specs
or_else (some next) specs = next

module _ (std : Library) (unmarshal : Text → Option (List RuleSpec)) (lint : LintMode) where
  swap-fails :
      (s : Store) (o : Option (List RuleSpec)) (out : Loaded) (t : Target)
      → Agrees std s o out
      → o ≡ none
      → swap out t ≡ (t, false)
  unfolding swap
  swap-fails s o (fails e) t a h = refl
  swap-fails s none (loaded rs s') t a h = absurd a
  swap-fails s (some specs) (loaded rs s') t a h = cc

  swap-Runs :
      (s : Store) (o : Option (List RuleSpec)) (out : Loaded) (specs : List RuleSpec) (t : Target)
      → Agrees std s o out
      → o ≡ some specs
      → Runs std specs (swap out t).0 × ((swap out t).1 ≡ true)
  unfolding swap replace_rules rules_for
  swap-Runs s none out specs t a h = cc
  swap-Runs s (some next) (fails e) specs t a h = absurd a
  swap-Runs s (some next) (loaded rs s') specs t a h =
      (((s, subst (λ l. AreOf std l s rs s') (same next specs h) a), register_all-adds rs []), refl)
    where
      same : (a b : List RuleSpec) → some a ≡ some b → a ≡ b
      same a b h = cc

  -- A reload of a document that is not to be loaded changes nothing.
  reload-fails :
      (content : Option Text) (t : Target)
      → admitted std unmarshal lint content ≡ none
      → reload std unmarshal lint content t ≡ (t, false)
  unfolding reload
  reload-fails content t h =
      swap-fails t.store (admitted std unmarshal lint content) _ t
        (load-Agrees std unmarshal lint content t.store) h

  reload-Runs :
      (content : Option Text) (specs : List RuleSpec) (t : Target)
      → admitted std unmarshal lint content ≡ some specs
      → Runs std specs (reload std unmarshal lint content t).0
        × ((reload std unmarshal lint content t).1 ≡ true)
  unfolding reload
  reload-Runs content specs t h =
      swap-Runs t.store (admitted std unmarshal lint content) _ specs t
        (load-Agrees std unmarshal lint content t.store) h

  -- The specs of the last document that was to be loaded: of the events before the end, those that
  -- write or create the watched file count.
  pub last_admitted : Text → List Signal → List RuleSpec → List RuleSpec
  last_admitted file [] specs = specs
  last_admitted file (event ev ∷ rest) specs =
      let next = or_else (admitted std unmarshal lint ev.content) specs in
      last_admitted file rest (
        if text_eq (base ev.name) file
        then (if ev.is_write || ev.is_create then next else specs)
        else specs)
  last_admitted file (watcher_error ∷ rest) specs = last_admitted file rest specs
  last_admitted file (cancelled ∷ rest) specs = specs
  last_admitted file (closed ∷ rest) specs = specs

  reload-or_else :
      (content : Option Text) (specs : List RuleSpec) (t : Target)
      → Runs std specs t
      → Runs std
          (or_else (admitted std unmarshal lint content) specs)
          (reload std unmarshal lint content t).0
  reload-or_else content specs t r = elim (Option-cases (admitted std unmarshal lint content)) [
    | inl fails' ↦ rw (fails', reload-fails content t fails') r
    | inr (next, loads) ↦ rw loads (reload-Runs content next t loads).0
  ]

  if-Runs :
      (b : Bool) (x y : List RuleSpec) (t u : Target)
      → Runs std x t
      → Runs std y u
      → Runs std (if b then x else y) (if b then t else u)
  if-Runs true x y t u h k = h
  if-Runs false x y t u h k = k

  watch_loop-Runs :
      (file : Text) (signals : List Signal) (specs : List RuleSpec) (t : Target)
      → Runs std specs t
      → Runs std (last_admitted file signals specs) (watch_loop std unmarshal lint file signals t)
  unfolding last_admitted watch_loop handle_file_event
  watch_loop-Runs file [] specs t r = r
  watch_loop-Runs file (event ev ∷ rest) specs t r = watch_loop-Runs file rest _ _ (
      if-Runs (text_eq (base ev.name) file) _ specs _ t
        (if-Runs (ev.is_write || ev.is_create) _ specs _ t (reload-or_else ev.content specs t r) r)
        r)
  watch_loop-Runs file (watcher_error ∷ rest) specs t r = watch_loop-Runs file rest specs t r
  watch_loop-Runs file (cancelled ∷ rest) specs t r = r
  watch_loop-Runs file (closed ∷ rest) specs t r = r

-- A watcher whose first document is to be loaded runs, after any signals, the rules of the last
-- document that was to be loaded, in its order and as `BuildRule` gives them, each with a hit counter: a document that is not to be
-- loaded leaves the rules from before. If the first is not to be loaded, `Watch` returns its error
-- and the engine is as it was.
pub watch-Runs :
    (std : Library) (unmarshal : Text → Option (List RuleSpec)) (lint : LintMode) (path : Text)
    (content : Option Text) (signals : List Signal) (t : Target)
    → ((specs : List RuleSpec)
        → admitted std unmarshal lint content ≡ some specs
        → Runs std
            (last_admitted std unmarshal lint (base path) signals specs)
            (watch std unmarshal lint path content signals t).0)
      × (admitted std unmarshal lint content ≡ none
          → watch std unmarshal lint path content signals t ≡ (t, false))
watch-Runs std unmarshal lint path content signals t = (
  λ specs h.
      let (runs, ok) = reload-Runs std unmarshal lint content specs t h in
      unfold watch in rw ok (watch_loop-Runs std unmarshal lint (base path) signals specs _ runs),
  λ h. unfold watch in rw (reload-fails std unmarshal lint content t h) refl,
)
