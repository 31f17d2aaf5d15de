-- ===== src/Chaostest/Golden/Rebuilding.antt =====
-- The rules that are built from accumulators.
use chaotic.Base.{ℕ, suc, ◌<◌, ◌≡◌, ◌∙◌, refl, List, [], ◌∷◌, Option, none, some, Text, Map, arith}
use chaotic.Fault.{update}
use chaotic.Engine.Op.{Op}
use chaotic.Engine.Counter.{Counter}
use chaotic.Engine.Rule.{Rule, Store, Call, matches, all_match}
use chaotic.Engine.Rule.Options.{
  new_rule, blank_rule, apply_options, set_counter, match_kind, has_kind, sequence, with_fault,
  named,
}
use chaotic.Chaostest.Golden.{ReplayAcc, replay_fault, replay_rule, replay_rules}

-- The rules are those of the accumulators, in order: by name, with a fresh sequence counter of the mask,
-- for the kinds, with no other gate.
abbrev pub Rebuild : Map ReplayAcc → List Rule → Store → Type 0
Rebuild [] [] s = Unit {0}
Rebuild [] (r ∷ rs) s = ⊥
Rebuild (entry ∷ accs) [] s = ⊥
Rebuild ((name, a) ∷ accs) (r ∷ rs) s =
    (r.name ≡ name)
    × (s.counters r.counter ≡ Counter.sequence a.mask 0)
    × ((c : Call) (op : Op) → matches r c op ≡ has_kind a.order op.kind)
    × (r.faults ≡ replay_fault a ∷ [])
    × (r.sticky_at ≡ none)
    × (r.limiter_at ≡ none)
    × (r.staged_at ≡ none)
    × Rebuild accs rs s

-- The built rules, whose store keeps what was in it.
abbrev pub Builds : Map ReplayAcc → Store → Option (List Rule × Store) → Type 0
Builds accs s none = ⊥
Builds accs s (some (rs, s')) =
    ((p : ℕ) → p < s.next → s'.counters p ≡ s.counters p) × Rebuild accs rs s'

-- The rule of an accumulator, and its store.
abbrev built_rule : Text → ReplayAcc → Store → Rule
built_rule name a s = record {
  name = name;
  matchers = (λ c op. has_kind a.order op.kind) ∷ [];
  counter = suc s.next;
  faults = replay_fault a ∷ [];
  sticky_at = none;
  limiter_at = none;
  staged_at = none;
}

abbrev built_store : ReplayAcc → Store → Store
built_store a s = record s {
  counters =
      update (update s.counters s.next Counter.always) (suc s.next) (Counter.sequence a.mask 0);
  next = suc (suc s.next);
}

built_store-kept :
    (a : ReplayAcc) (s : Store) (p : ℕ) → p < s.next → (built_store a s).counters p ≡ s.counters p
unfolding update
built_store-kept a s p h = ground (arith, h)

built_store-new :
    (a : ReplayAcc) (s : Store)
    → (built_store a s).counters (suc s.next) ≡ Counter.sequence a.mask 0
unfolding update
built_store-new a s = ground arith

built_rule-matches :
    (name : Text) (a : ReplayAcc) (s : Store) (c : Call) (op : Op)
    → matches (built_rule name a s) c op ≡ has_kind a.order op.kind
unfolding matches all_match
built_rule-matches name a s c op = ground arith

pub replay_rules-Builds : (accs : Map ReplayAcc) (s : Store) → Builds accs s (replay_rules accs s)
unfolding replay_rules replay_rule new_rule blank_rule apply_options set_counter match_kind sequence
    with_fault named
replay_rules-Builds [] s = ((λ p h. refl), tt)
replay_rules-Builds ((name, a) ∷ accs) s =
    go (replay_rules accs (built_store a s)) (replay_rules-Builds accs (built_store a s))
  where
    go :
        (o : Option (List Rule × Store))
        → Builds accs (built_store a s) o
        → Builds
            ((name, a) ∷ accs)
            s
            (elim o [ none ↦ none | some (rs, s'') ↦ some (built_rule name a s ∷ rs, s'') ])
    go none h = h
    go (some (rs, s'')) (kept, rest) = (
      (λ p h. kept p (omega (arith, h)) ∙ built_store-kept a s p h),
      (
        refl,
        kept (suc s.next) (omega arith) ∙ built_store-new a s,
        built_rule-matches name a s,
        refl,
        refl,
        refl,
        refl,
        rest,
      ),
    )
