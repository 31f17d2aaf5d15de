-- ===== src/Engine/World/Admin.antt =====
-- The hit counters under the administration of an engine.
use chaotic.Base.{
  ℕ, ◌≡◌, refl, ◌∙◌, ◌⊎◌, true, if◌then◌else◌, List, [], ◌∷◌, none, some, is_some, arith, Text, Map,
  text_eq_iff, lookup, lookup-insert, All, All-append, inc64,
}
use chaotic.Engine.Rule.{Rule}
use chaotic.Engine.World.{
  Engine, is_nil, rules_for, register, register_all, add_rule, reset, replace_rules,
  with_rule_source, record_hit, hits,
}

abbrev pub count_of : Text → Map ℕ → ℕ
count_of name m = elim (lookup name m) [ none ↦ 0 | some n ↦ n ]

register-count_of :
    (name : Text) (r : Rule) (m : Map ℕ) → count_of name (register r m) ≡ count_of name m
unfolding register
register-count_of name r m = ground (arith, lookup-insert r.name name 0 m, text_eq_iff r.name name)

pub register_all-count_of :
    (name : Text) (rs : List Rule) (m : Map ℕ) → count_of name (register_all rs m) ≡ count_of name m
unfolding register_all
register_all-count_of name [] m = refl
register_all-count_of name (r ∷ rs) m =
    register_all-count_of name rs (register r m) ∙ register-count_of name r m

pub empty_hits :
    (name : Text) (m : Map ℕ)
    → count_of name m ≡ 0
    → (if is_nil name then 0 else count_of name m) ≡ 0
empty_hits name m h = ground (arith, h)

-- Adding rules, and taking them from a source, keeps every hit count; replacing the rules and a
-- reset put every one at 0.
pub hits-admin :
    (name : Text) (r : Rule) (rs : List Rule) (e : Engine)
    → (hits name (add_rule r e) ≡ hits name e)
      × (hits name (with_rule_source rs e) ≡ hits name e)
      × (hits name (replace_rules rs e) ≡ 0)
      × (hits name (reset e) ≡ 0)
unfolding hits add_rule with_rule_source replace_rules reset
hits-admin name r rs e = (
  ground (arith, register-count_of name r e.hits),
  ground (arith, register_all-count_of name rs e.hits),
  empty_hits name (register_all rs []) (register_all-count_of name rs [] ∙ (unfold lookup in refl)),
  empty_hits name [] (unfold lookup in refl),
)

-- A rule has no name, or has a hit counter.
abbrev pub IsCounted : Map ℕ → Rule → Type 0
IsCounted m r = (is_nil r.name ≡ true) ⊎ (is_some (lookup r.name m) ≡ true)

-- Every rule of the engine has.
abbrev pub IsRegistered : Engine → Type 0
IsRegistered e = All (IsCounted e.hits) (rules_for e.rules)

register-keeps : (r s : Rule) (m : Map ℕ) → IsCounted m s → IsCounted (register r m) s
unfolding register
register-keeps r s m h = ground (arith, h, lookup-insert r.name s.name 0 m)

register-adds : (r : Rule) (m : Map ℕ) → IsCounted (register r m) r
unfolding register
register-adds r m = ground (arith, lookup-insert r.name r.name 0 m, text_eq_iff r.name r.name)

register_all-keeps :
    (rs : List Rule) (s : Rule) (m : Map ℕ) → IsCounted m s → IsCounted (register_all rs m) s
unfolding register_all
register_all-keeps [] s m h = h
register_all-keeps (r ∷ rs) s m h = register_all-keeps rs s (register r m) (register-keeps r s m h)

pub register_all-adds : (rs : List Rule) (m : Map ℕ) → All (IsCounted (register_all rs m)) rs
unfolding register_all
register_all-adds [] m = tt
register_all-adds (r ∷ rs) m = (
  register_all-keeps rs r (register r m) (register-adds r m),
  register_all-adds rs (register r m),
)

All-register :
    (r : Rule) (rs : List Rule) (m : Map ℕ)
    → All (IsCounted m) rs
    → All (IsCounted (register r m)) rs
All-register r [] m h = tt
All-register r (s ∷ rs) m h = (register-keeps r s m h.0, All-register r rs m h.1)

record_hit-keeps :
    (name : Text) (e : Engine) (s : Rule)
    → IsCounted e.hits s
    → IsCounted (record_hit name e).hits s
unfolding record_hit
record_hit-keeps name e s h =
    ground (arith, h, lookup-insert name s.name (inc64 (count_of name e.hits)) e.hits)

All-record_hit :
    (name : Text) (e : Engine) (rs : List Rule)
    → All (IsCounted e.hits) rs
    → All (IsCounted (record_hit name e).hits) rs
All-record_hit name e [] h = tt
All-record_hit name e (s ∷ rs) h = (record_hit-keeps name e s h.0, All-record_hit name e rs h.1)

record_hit-rules : (name : Text) (e : Engine) → (record_hit name e).rules ≡ e.rules
unfolding record_hit
record_hit-rules name e = ground arith

-- Each way to install rules gives every named rule a hit counter, where the rules before had
-- theirs, and a hit keeps every counter: so no hit of a named rule of the engine is lost.
pub admin-IsRegistered :
    (r : Rule) (rs : List Rule) (name : Text) (e : Engine)
    → IsRegistered e
    → IsRegistered (add_rule r e)
      × IsRegistered (with_rule_source rs e)
      × IsRegistered (replace_rules rs e)
      × IsRegistered (reset e)
      × IsRegistered (record_hit name e)
unfolding add_rule with_rule_source replace_rules reset rules_for
admin-IsRegistered r rs name e h = (
  All-append (IsCounted (register r e.hits)) (rules_for e.rules) (r ∷ [])
      (All-register r (rules_for e.rules) e.hits h) (register-adds r e.hits, tt),
  register_all-adds rs e.hits,
  register_all-adds rs [],
  tt,
  rw (record_hit-rules name e) (All-record_hit name e (rules_for e.rules) h),
)
