-- ===== src/Source/Http/Edits.antt =====
-- The handler's order and specs stand for one ordered map, on which requests are plain edits.
use chaotic.Base.{
  ℕ, suc, ◌≡◌, ◌∙◌, refl, ap, true, false, if◌then◌else◌, List, [], ◌∷◌, ◌++◌, none, some, is_some,
  Text, Map, text_eq, text_eq_iff, text_eq_refl, lookup, insert, delete, lookup-insert,
  lookup-delete, arith, Bool-cases, inl, inr,
}
use chaotic.Engine.Spec.{RuleSpec, Library}
use chaotic.Engine.Lint.{Report, lint_off}
use chaotic.Terms.Parse.{got, parse}
use chaotic.Source.Http.{
  Imports, Route, get_whole, list_rules, post_whole, rule_count, put_rule, delete_rule, spec_of,
  add_name, remove_name, index_specs, named_spec, with_name,
}
use chaotic.Source.Http.Table.{IsTable, Distinct, has, put-IsTable}

-- The ordered map: the specs in their order, each with its name.
unfoldable pub view : List Text → Map RuleSpec → Map RuleSpec
view [] specs = []
view (n ∷ ns) specs = (n, spec_of n specs) ∷ view ns specs

spec_of-insert :
    (n name : Text) (spec : RuleSpec) (specs : Map RuleSpec)
    → spec_of n (insert name spec specs) ≡ (if text_eq name n then spec else spec_of n specs)
unfolding spec_of
spec_of-insert n name spec specs = ground (arith, lookup-insert name n spec specs)

view-insert_other :
    (name : Text) (spec : RuleSpec) (ns : List Text) (specs : Map RuleSpec)
    → has name ns ≡ false
    → view ns (insert name spec specs) ≡ view ns specs
unfolding view
view-insert_other name spec [] specs h = refl
view-insert_other name spec (n ∷ ns) specs h =
    ground (arith, h, spec_of-insert n name spec specs, view-insert_other name spec ns specs)

view-insert :
    (name : Text) (spec : RuleSpec) (ns : List Text) (specs : Map RuleSpec)
    → Distinct ns
    → has name ns ≡ true
    → view ns (insert name spec specs) ≡ insert name spec (view ns specs)
unfolding view insert
view-insert name spec [] specs d h = cc
view-insert name spec (n ∷ ns) specs d h = ground (
  arith,
  h,
  d.0,
  spec_of-insert n name spec specs,
  view-insert_other name spec ns specs,
  view-insert name spec ns specs d.1,
  text_eq_iff n name,
  text_eq_iff name n,
)

view-append :
    (name : Text) (spec : RuleSpec) (ns : List Text) (specs : Map RuleSpec)
    → has name ns ≡ false
    → view (ns ++ name ∷ []) (insert name spec specs) ≡ insert name spec (view ns specs)
unfolding view insert
view-append name spec [] specs h =
    ground (arith, spec_of-insert name name spec specs, text_eq_refl name)
view-append name spec (n ∷ ns) specs h = ground (
  arith,
  h,
  spec_of-insert n name spec specs,
  view-append name spec ns specs,
  text_eq_iff n name,
  text_eq_iff name n,
)

pub view-put :
    (std : Library) (spec : RuleSpec) (order : List Text) (specs : Map RuleSpec)
    → IsTable std order specs
    → view (add_name spec.name order specs) (insert spec.name spec specs)
      ≡ insert spec.name spec (view order specs)
unfolding add_name
view-put std spec order specs t = elim (Bool-cases (is_some (lookup spec.name specs))) [
  | inl old ↦ rw old (view-insert spec.name spec order specs t.distinct (t.keyed spec.name ∙ old))
  | inr new ↦ rw new (view-append spec.name spec order specs (t.keyed spec.name ∙ new))
]

spec_of-delete :
    (n m : Text) (specs : Map RuleSpec)
    → text_eq m n ≡ false
    → spec_of n (delete m specs) ≡ spec_of n specs
unfolding spec_of
spec_of-delete n m specs h = ground (arith, h, lookup-delete m n specs)

pub view-remove :
    (m : Text) (ns : List Text) (specs : Map RuleSpec)
    → view (remove_name m ns) (delete m specs) ≡ delete m (view ns specs)
unfolding view remove_name delete
view-remove m [] specs = refl
view-remove m (n ∷ ns) specs =
    ground
      (arith, spec_of-delete n m specs, view-remove m ns specs, text_eq_iff n m, text_eq_iff m n)

-- The map that a document stands for: its specs in order, those without a name named by their
-- position, a later one in the place of an earlier one of its name.
unfoldable pub load : ℕ → List RuleSpec → Map RuleSpec → Map RuleSpec
load i [] m = m
load i (spec ∷ rest) m = load (suc i) rest (insert (named_spec i spec).name (named_spec i spec) m)

pub view-load :
    (std : Library) (i : ℕ) (doc : List RuleSpec) (order : List Text) (specs : Map RuleSpec)
    → IsTable std order specs
    → let indexed = index_specs i doc order specs in
      view indexed.0 indexed.1 ≡ load i doc (view order specs)
unfolding index_specs load
view-load std i [] order specs t = refl
view-load std i (spec ∷ rest) order specs t =
    view-load std (suc i) rest _ _ (put-IsTable std (named_spec i spec) order specs t)
    ∙ ap (load (suc i) rest) (view-put std (named_spec i spec) order specs t)

-- What a request that succeeds does to the ordered map.
abbrev pub Effect : Imports → Route → Map RuleSpec → Map RuleSpec → Type 0
Effect lib get_whole m m' = m' ≡ m
Effect lib list_rules m m' = m' ≡ m
Effect lib (rule_count name) m m' = (m' ≡ m) × (is_some (lookup name m) ≡ true)
Effect lib (post_whole none) m m' = ⊥
Effect lib (post_whole (some body)) m m' =
    (doc : List RuleSpec) × (lib.unmarshal body ≡ some doc) × (m' ≡ load 0 doc [])
Effect lib (put_rule name none) m m' = ⊥
Effect lib (put_rule name (some body)) m m' =
    (spec : RuleSpec) × (rep : Report) × (parse lib.std lib.lits lint_off body
      ≡ got (spec ∷ [], rep))
    × (m' ≡ insert name (with_name name spec) m)
Effect lib (delete_rule name) m m' = (m' ≡ delete name m) × (is_some (lookup name m) ≡ true)

pub lookup-view :
    (n : Text) (ns : List Text) (specs : Map RuleSpec)
    → is_some (lookup n (view ns specs)) ≡ has n ns
unfolding view lookup
lookup-view n [] specs = refl
lookup-view n (m ∷ ns) specs =
    ground (arith, lookup-view n ns specs, text_eq_iff m n, text_eq_iff n m)
