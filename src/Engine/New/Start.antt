-- ===== src/Engine/New/Start.antt =====
-- How a new engine starts.
use chaotic.Base.{
  ℕ, ◌≡◌, ◌∙◌, refl, Bool, true, false, List, [], ◌∷◌, Option, none, some, Text, ℤ, arith, lookup,
}
use mathlib.Core.Path.{subst}
use chaotic.Engine.Bucket.{Bucket, new_token_bucket}
use chaotic.Engine.Budget.{Budget, over_budget, new_failure_budget}
use chaotic.Engine.Semaphore.{Semaphore, new_semaphore}
use chaotic.Engine.Rule.{Rule}
use chaotic.Engine.World.{Engine, with_rule_source, rules_for}
use chaotic.Engine.World.Admin.{IsRegistered, count_of, register_all-count_of, register_all-adds}
use chaotic.Engine.Eval.{is_spent}
use chaotic.Engine.Action.Slots.{held_slots, WithinCapacity}
use chaotic.Engine.New.{
  EngineOption, with_observer, with_kill_switch, with_source, with_failure_budget, with_rate_limit,
  with_max_concurrent, with_production_guard, Setup, apply_option, apply_all, guarded, blank, new,
}

-- Nothing has happened: no slot is in use, every rule is counted, with no hits, the budget is not
-- spent, and the engine is not disabled.
pub record HasStarted (e : Engine) : Type 0 where
  pub free : held_slots e.max_conc ≡ 0
  pub within : WithinCapacity e.max_conc
  pub registered : IsRegistered e
  pub unhit : (name : Text) → count_of name e.hits ≡ 0
  pub unspent : is_spent e.budget ≡ false
  pub switched_on : e.disabled ≡ false

abbrev pub Started : Option Setup → Type 0
Started none = Unit {0}
Started (some s) = HasStarted s.0

with_rule_source-HasStarted :
    (rs : List Rule) (e : Engine) → HasStarted e → HasStarted (with_rule_source rs e)
unfolding with_rule_source rules_for
with_rule_source-HasStarted rs e h = record {
  free = h.free;
  within = h.within;
  registered = register_all-adds rs e.hits;
  unhit = λ name. register_all-count_of name rs e.hits ∙ h.unhit name;
  unspent = h.unspent;
  switched_on = h.switched_on;
}

new_failure_budget-unspent :
    (num : ℤ) (den : ℕ) (window : ℤ) (b : Budget)
    → new_failure_budget num den window ≡ some b
    → over_budget b ≡ false
unfolding new_failure_budget over_budget
new_failure_budget-unspent num den window b h = ground arith

new_semaphore-free : (n : ℤ) (s : Semaphore) → new_semaphore n ≡ some s → s.held ≡ 0
unfolding new_semaphore
new_semaphore-free n s h = ground arith

put_budget :
    (e : Engine) (g : Option Bool) (o : Option Budget)
    → HasStarted e
    → ((b : Budget) → o ≡ some b → over_budget b ≡ false)
    → Started (elim o [ none ↦ none | some b ↦ some (record e { budget = some b }, g) ])
put_budget e g none h fresh = tt
put_budget e g (some b) h fresh = record {
  free = h.free;
  within = h.within;
  registered = h.registered;
  unhit = h.unhit;
  unspent = fresh b refl;
  switched_on = h.switched_on;
}

put_limiter :
    (e : Engine) (g : Option Bool) (o : Option Bucket)
    → HasStarted e
    → Started (elim o [ none ↦ none | some b ↦ some (record e { rate_limiter = some b }, g) ])
put_limiter e g none h = tt
put_limiter e g (some b) h = record {
  free = h.free;
  within = h.within;
  registered = h.registered;
  unhit = h.unhit;
  unspent = h.unspent;
  switched_on = h.switched_on;
}

put_semaphore :
    (e : Engine) (g : Option Bool) (o : Option Semaphore)
    → HasStarted e
    → ((s : Semaphore) → o ≡ some s → s.held ≡ 0)
    → Started (elim o [ none ↦ none | some s ↦ some (record e { max_conc = some s }, g) ])
put_semaphore e g none h fresh = tt
put_semaphore e g (some s) h fresh = record {
  free = fresh s refl;
  within = omega (arith, fresh s refl);
  registered = h.registered;
  unhit = h.unhit;
  unspent = h.unspent;
  switched_on = h.switched_on;
}

apply_option-Started : (o : EngineOption) (s : Setup) → HasStarted s.0 → Started (apply_option o s)
unfolding apply_option
apply_option-Started (with_observer o) (e, g) h = record {
  free = h.free;
  within = h.within;
  registered = h.registered;
  unhit = h.unhit;
  unspent = h.unspent;
  switched_on = h.switched_on;
}
apply_option-Started (with_kill_switch k) (e, g) h = record {
  free = h.free;
  within = h.within;
  registered = h.registered;
  unhit = h.unhit;
  unspent = h.unspent;
  switched_on = h.switched_on;
}
apply_option-Started (with_source rs) (e, g) h = with_rule_source-HasStarted rs e h
apply_option-Started (with_failure_budget num den window) (e, g) h =
    put_budget e g (new_failure_budget num den window) h (new_failure_budget-unspent num den window)
apply_option-Started (with_rate_limit rps now) (e, g) h =
    put_limiter e g (new_token_bucket rps now) h
apply_option-Started (with_max_concurrent n) (e, g) h =
    put_semaphore e g (new_semaphore n) h (new_semaphore-free n)
apply_option-Started (with_production_guard guard) (e, g) h = h

after_option :
    (os : List EngineOption) (r : Option Setup)
    → Started r
    → ((t : Setup) → HasStarted t.0 → Started (apply_all os t))
    → Started (elim r [ none ↦ none | some t ↦ apply_all os t ])
after_option os none h rest = tt
after_option os (some t) h rest = rest t h

apply_all-Started : (os : List EngineOption) (s : Setup) → HasStarted s.0 → Started (apply_all os s)
unfolding apply_all
apply_all-Started [] s h = h
apply_all-Started (o ∷ os) s h =
    after_option os (apply_option o s) (apply_option-Started o s h) λ t k. apply_all-Started os t k

blank-HasStarted : HasStarted blank
unfolding rules_for lookup
blank-HasStarted = record {
  free = refl;
  within = tt;
  registered = tt;
  unhit = λ name. refl;
  unspent = refl;
  switched_on = refl;
}

same_engine : (a b : Engine) → some a ≡ some b → a ≡ b
same_engine a b h = cc

guarded-HasStarted : (r : Option Setup) (e : Engine) → Started r → guarded r ≡ some e → HasStarted e
unfolding guarded
guarded-HasStarted none e k h = cc
guarded-HasStarted (some (e', none)) e k h = subst HasStarted (same_engine e' e h) k
guarded-HasStarted (some (e', some false)) e k h = subst HasStarted (same_engine e' e h) k
guarded-HasStarted (some (e', some true)) e k h = cc

-- Whatever its options are, an engine that `New` returns starts idle: no slot is in use, every named
-- rule of its source has a hit counter, all counters are 0, its failure budget is not spent, and it
-- is not disabled.
pub new-HasStarted : (os : List EngineOption) (e : Engine) → new os ≡ some e → HasStarted e
unfolding new
new-HasStarted os e h =
    guarded-HasStarted (apply_all os (blank, none)) e
      (apply_all-Started os (blank, none) blank-HasStarted) h
