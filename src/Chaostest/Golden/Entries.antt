-- ===== src/Chaostest/Golden/Entries.antt =====
-- The accumulators as a map keyed by the rules' names.
use chaotic.Base.{
  ◌≡◌, refl, Bool, true, false, if◌then◌else◌, List, [], ◌∷◌, none, some, Text, text_eq_iff,
  text_eq_refl, Map, lookup, insert, Distinct, Distinct-insert, arith,
}
use chaotic.Engine.World.{is_nil}
use chaotic.Chaostest.Golden.{Event, ReplayAcc, observe, acc_of, collect}
use chaotic.Chaostest.Golden.Collecting.{step}

-- Every key has a name.
abbrev AreNamed : Map ReplayAcc → Type 0
AreNamed [] = Unit {0}
AreNamed ((name, a) ∷ accs) = (is_nil name ≡ false) × AreNamed accs

AreNamed-insert :
    (name : Text) (a : ReplayAcc) (accs : Map ReplayAcc)
    → is_nil name ≡ false
    → AreNamed accs
    → AreNamed (insert name a accs)
unfolding insert
AreNamed-insert name a [] h k = (h, tt)
AreNamed-insert name a ((n, b) ∷ accs) h k = ground (arith, h, k, AreNamed-insert name a accs h k.1)

pub collect-IsKeyed :
    (evs : List Event) (accs : Map ReplayAcc)
    → Distinct accs × AreNamed accs
    → Distinct (collect evs accs) × AreNamed (collect evs accs)
unfolding collect
collect-IsKeyed [] accs h = h
collect-IsKeyed (ev ∷ evs) accs h = collect-IsKeyed evs (step ev accs) (go (is_nil ev.rule) refl)
  where
    go :
        (b : Bool)
        → is_nil ev.rule ≡ b
        → let accs' = if b then accs else insert ev.rule (observe ev (acc_of ev.rule accs)) accs in
          Distinct accs' × AreNamed accs'
    go true e = h
    go false e = (Distinct-insert ev.rule _ accs h.0, AreNamed-insert ev.rule _ accs e h.1)

-- The entries of a map are what it looks up.
abbrev pub AreEntries : Map ReplayAcc → Map ReplayAcc → Type 0
AreEntries [] full = Unit {0}
AreEntries ((name, a) ∷ accs) full =
    (is_nil name ≡ false) × (lookup name full ≡ some a) × AreEntries accs full

AreEntries-cons :
    (name : Text) (a : ReplayAcc) (accs full : Map ReplayAcc)
    → lookup name full ≡ none
    → AreEntries accs full
    → AreEntries accs ((name, a) ∷ full)
unfolding lookup
AreEntries-cons name a [] full h e = tt
AreEntries-cons name a ((n, b) ∷ accs) full h e =
    (e.0, ground (arith, h, e.1, text_eq_iff name n), AreEntries-cons name a accs full h e.2)

pub AreEntries-self : (accs : Map ReplayAcc) → Distinct accs → AreNamed accs → AreEntries accs accs
unfolding lookup
AreEntries-self [] d n = tt
AreEntries-self ((name, a) ∷ accs) d n = (
  n.0,
  rw (text_eq_refl name) refl,
  AreEntries-cons name a accs accs d.0 (AreEntries-self accs d.1 n.1),
)
