-- ===== src/Source/Http/Table.antt =====
-- The handler's specs by name and their order: one table.
use chaotic.Base.{
  ℕ, suc, ◌≡◌, ◌∙◌, refl, sym, ap, Bool, true, false, ◌||◌, if◌then◌else◌, List, [], ◌∷◌, ◌++◌,
  some, is_some, Text, Map, text_eq, text_eq_iff, lookup, insert, delete, lookup-insert,
  lookup-delete, any, map, arith, All, text_eq_refl, Bool-cases, inl, inr,
}
use chaotic.Engine.Spec.{RuleSpec, Library}
use chaotic.Engine.Spec.Build.Total.{spec_errors}
use chaotic.Source.Http.{spec_of, specs_of, add_name, remove_name, index_specs, named_spec}

-- The name is among the names.
abbrev pub has : Text → List Text → Bool
has n = any (text_eq n)

-- No name occurs twice.
abbrev pub Distinct : List Text → Type 0
Distinct [] = Unit {0}
Distinct (n ∷ ns) = (has n ns ≡ false) × Distinct ns

-- The order has every name of the specs once, each spec has the name that it is found by, and it
-- can be built.
pub record IsTable (std : Library) (order : List Text) (specs : Map RuleSpec) : Type 0 where
  pub keyed : (n : Text) → has n order ≡ is_some (lookup n specs)
  pub named : (n : Text) (spec : RuleSpec) → lookup n specs ≡ some spec → spec.name ≡ n
  pub distinct : Distinct order

has-append : (n m : Text) (ns : List Text) → has n (ns ++ m ∷ []) ≡ has n ns || text_eq n m
has-append n m [] = ground arith
has-append n m (k ∷ ns) = ground (arith, has-append n m ns)

Distinct-append :
    (m : Text) (ns : List Text) → Distinct ns → has m ns ≡ false → Distinct (ns ++ m ∷ [])
Distinct-append m [] d h = (refl, tt)
Distinct-append m (n ∷ ns) d h =
    ground
      (arith, d.0, h, has-append n m ns, Distinct-append m ns d.1, text_eq_iff n m, text_eq_iff m n)

has-remove_name :
    (n m : Text) (ns : List Text)
    → has n (remove_name m ns) ≡ (if text_eq m n then false else has n ns)
unfolding remove_name
has-remove_name n m [] = ground arith
has-remove_name n m (k ∷ ns) =
    ground (arith, has-remove_name n m ns, text_eq_iff k m, text_eq_iff n k, text_eq_iff m n)

Distinct-remove_name : (m : Text) (ns : List Text) → Distinct ns → Distinct (remove_name m ns)
unfolding remove_name
Distinct-remove_name m [] d = tt
Distinct-remove_name m (n ∷ ns) d =
    ground (arith, d.0, Distinct-remove_name m ns d.1, has-remove_name n m ns)

pub empty-IsTable : (std : Library) → IsTable std [] []
unfolding lookup
empty-IsTable std = record { keyed = λ n. refl; named = λ n spec h. cc; distinct = tt }

pub put-IsTable :
    (std : Library) (spec : RuleSpec) (order : List Text) (specs : Map RuleSpec)
    → IsTable std order specs
    → IsTable std (add_name spec.name order specs) (insert spec.name spec specs)
put-IsTable std spec order specs t = record {
  keyed = λ n.
      unfold add_name in
      ground (
        arith,
        t.keyed n,
        t.keyed spec.name,
        has-append n spec.name order,
        lookup-insert spec.name n spec specs,
        text_eq_iff n spec.name,
        text_eq_iff spec.name n,
      );
  named = λ n sp h.
      ground
        (arith, h, t.named n sp, lookup-insert spec.name n spec specs, text_eq_iff spec.name n);
  distinct =
      unfold add_name in
      ground (arith, t.distinct, t.keyed spec.name, Distinct-append spec.name order t.distinct);
}

pub remove-IsTable :
    (std : Library) (m : Text) (order : List Text) (specs : Map RuleSpec)
    → IsTable std order specs
    → IsTable std (remove_name m order) (delete m specs)
remove-IsTable std m order specs t = record {
  keyed = λ n. ground (arith, t.keyed n, has-remove_name n m order, lookup-delete m n specs);
  named = λ n sp h. ground (arith, h, t.named n sp, lookup-delete m n specs);
  distinct = Distinct-remove_name m order t.distinct;
}

pub index_specs-IsTable :
    (std : Library) (i : ℕ) (doc : List RuleSpec) (order : List Text) (specs : Map RuleSpec)
    → IsTable std order specs
    → let indexed = index_specs i doc order specs in IsTable std indexed.0 indexed.1
unfolding index_specs
index_specs-IsTable std i [] order specs t = t
index_specs-IsTable std i (spec ∷ rest) order specs t =
    index_specs-IsTable std (suc i) rest _ _ (put-IsTable std (named_spec i spec) order specs t)

name_found :
    (n : Text) (specs : Map RuleSpec)
    → is_some (lookup n specs) ≡ true
    → lookup n specs ≡ some (spec_of n specs)
unfolding spec_of
name_found n specs h = ground (arith, h)

found_spec :
    (n m : Text) (spec : RuleSpec) (specs : Map RuleSpec)
    → n ≡ m
    → lookup n specs ≡ some spec
    → spec_of m specs ≡ spec
unfolding spec_of
found_spec n m spec specs e found = rw (sym e, spec_of, found) refl

names_of_part :
    (std : Library) (ns order : List Text) (specs : Map RuleSpec)
    → IsTable std order specs
    → ((n : Text) → has n ns ≡ true → has n order ≡ true)
    → map (λ (spec : RuleSpec). spec.name) (specs_of ns specs) ≡ ns
unfolding specs_of
names_of_part std [] order specs t sub = refl
names_of_part std (n ∷ ns) order specs t sub = ground (
  arith,
  sub n,
  text_eq_refl n,
  t.keyed n,
  t.named n (spec_of n specs),
  name_found n specs,
  names_of_part std ns order specs t (λ m h. ground (arith, sub m, h)),
)

-- The specs have the names of the order.
pub names-specs_of :
    (std : Library) (order : List Text) (specs : Map RuleSpec)
    → IsTable std order specs
    → map (λ (spec : RuleSpec). spec.name) (specs_of order specs) ≡ order
names-specs_of std order specs t = names_of_part std order order specs t (λ n h. h)

-- Every spec of the map builds.
abbrev pub IsBuildable : Library → Map RuleSpec → Type 0
IsBuildable std specs =
    (n : Text) (spec : RuleSpec) → lookup n specs ≡ some spec → spec_errors std spec ≡ []

abbrev pub HasNoErrors : Library → RuleSpec → Type 0
HasNoErrors std spec = spec_errors std spec ≡ []

part_builds :
    (std : Library) (ns : List Text) (specs : Map RuleSpec)
    → IsBuildable std specs
    → ((n : Text) → has n ns ≡ true → is_some (lookup n specs) ≡ true)
    → All (HasNoErrors std) (specs_of ns specs)
unfolding specs_of
part_builds std [] specs b found = tt
part_builds std (n ∷ ns) specs b found = (
  b n (spec_of n specs) (name_found n specs (ground (arith, found n, text_eq_refl n))),
  part_builds std ns specs b (λ m h. ground (arith, found m, h)),
)

pub order_builds :
    (std : Library) (order : List Text) (specs : Map RuleSpec)
    → IsTable std order specs
    → IsBuildable std specs
    → All (HasNoErrors std) (specs_of order specs)
order_builds std order specs t b = part_builds std order specs b (λ n h. sym (t.keyed n) ∙ h)

built_part :
    (std : Library) (n : Text) (spec : RuleSpec) (ns : List Text) (specs : Map RuleSpec)
    → lookup n specs ≡ some spec
    → has n ns ≡ true
    → All (HasNoErrors std) (specs_of ns specs)
    → spec_errors std spec ≡ []
unfolding specs_of
built_part std n spec [] specs found h all = cc
built_part std n spec (m ∷ ns) specs found h all = elim (Bool-cases (text_eq n m)) [
  | inl same ↦
      ap (spec_errors std) (sym (found_spec n m spec specs ((text_eq_iff n m).0 same) found))
      ∙ all.0
  | inr other ↦ built_part std n spec ns specs found (ground (arith, h, other)) all.1
]

pub IsBuildable-All :
    (std : Library) (order : List Text) (specs : Map RuleSpec)
    → IsTable std order specs
    → All (HasNoErrors std) (specs_of order specs)
    → IsBuildable std specs
IsBuildable-All std order specs t all n spec found =
    built_part std n spec order specs found (t.keyed n ∙ ap is_some found) all

pub IsBuildable-insert :
    (std : Library) (spec : RuleSpec) (specs : Map RuleSpec)
    → spec_errors std spec ≡ []
    → IsBuildable std specs
    → IsBuildable std (insert spec.name spec specs)
IsBuildable-insert std spec specs h b n sp found =
    ground (arith, h, found, b n sp, lookup-insert spec.name n spec specs)

pub IsBuildable-delete :
    (std : Library) (m : Text) (specs : Map RuleSpec)
    → IsBuildable std specs
    → IsBuildable std (delete m specs)
IsBuildable-delete std m specs b n sp found = ground (arith, found, b n sp, lookup-delete m n specs)
