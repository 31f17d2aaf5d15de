-- ===== src/Chaostest/Golden/Replaying.antt =====
-- What the rules that are built from recorded events decide.
use chaotic.Base.{
  ℕ, ◌+◌, ◌<◌, ◌≡◌, ◌∙◌, refl, sym, ap, false, ◌||◌, List, [], ◌∷◌, Option, none, some, is_some,
  Text, text_eq, text_eq_iff, Map, lookup, lookup-insert, any, All, get_or, half_word, arith,
}
use chaotic.Engine.Op.{Op}
use chaotic.Engine.Counter.{Counter, should_fire}
use chaotic.Engine.Counter.Schedule.{advance, should_fire-decision}
use chaotic.Engine.Rule.{Rule, Store, Call, matches}
use chaotic.Engine.Rule.Options.{has_kind}
use chaotic.Engine.World.{is_nil}
use chaotic.Chaostest.Golden.{
  Event, ReplayAcc, observe, acc_of, collect, replay_rules, build_replay_rules,
}
use chaotic.Chaostest.Golden.Collecting.{step, mask_of, meets, occurs, collect-Collects}
use chaotic.Chaostest.Golden.Rebuilding.{Rebuild, Builds, replay_rules-Builds}
use chaotic.Chaostest.Golden.Entries.{AreEntries, AreEntries-self, collect-IsKeyed}

-- A rule that decides as recorded: at its k-th match, until the counter overflows, it fires exactly if
-- its k-th recorded event fired, and after these never; and it matches the kinds of the ops that it
-- was evaluated against.
abbrev pub Replays : List Event → Store → Rule → Type 0
Replays evs s r =
    ((k : ℕ)
      → k + 1 < half_word
      → (should_fire (advance k (s.counters r.counter))).1 ≡ get_or (mask_of r.name evs) k false)
    × ((c : Call) (op : Op) → matches r c op ≡ meets r.name op.kind evs)

-- A rule for each recorded name, and each decides as recorded.
abbrev pub AllReplay : List Event → Option (List Rule × Store) → Type 0
AllReplay evs none = ⊥
AllReplay evs (some (rs, s)) =
    All (Replays evs s) rs
    × ((name : Text)
        → is_nil name ≡ false
        → any (λ (r : Rule). text_eq r.name name) rs ≡ occurs name evs)

found-acc_of :
    (name : Text) (accs : Map ReplayAcc) (a : ReplayAcc)
    → lookup name accs ≡ some a
    → acc_of name accs ≡ a
unfolding acc_of
found-acc_of name accs a h = rw (h, acc_of) refl

acc-Replays :
    (evs : List Event) (name : Text) (a : ReplayAcc) (r : Rule) (s : Store)
    → is_nil name ≡ false
    → lookup name (collect evs []) ≡ some a
    → r.name ≡ name
    → s.counters r.counter ≡ Counter.sequence a.mask 0
    → ((c : Call) (op : Op) → matches r c op ≡ has_kind a.order op.kind)
    → Replays evs s r
unfolding acc_of lookup has_kind
acc-Replays evs name a r s named' found n counter match =
    let (masks, kinds) = collect-Collects name evs [] named' in
    let same : acc_of name (collect evs []) ≡ a = found-acc_of name (collect evs []) a found in
    (
      λ k h.
          ap (λ x. (should_fire (advance k x)).1) counter
          ∙ should_fire-decision k (Counter.sequence a.mask 0) refl h
          ∙ ap (λ (b : ReplayAcc). get_or b.mask k false) (sym same)
          ∙ ap (λ l. get_or l k false) masks
          ∙ ap (λ x. get_or (mask_of x evs) k false) (sym n),
      λ c op.
          match c op
          ∙ ap (λ (b : ReplayAcc). has_kind b.order op.kind) (sym same)
          ∙ kinds op.kind
          ∙ ap (λ x. meets x op.kind evs) (sym n),
    )

accs-Replays :
    (evs : List Event) (accs : Map ReplayAcc) (rs : List Rule) (s : Store)
    → AreEntries accs (collect evs [])
    → Rebuild accs rs s
    → All (Replays evs s) rs
accs-Replays evs [] [] s e b = tt
accs-Replays evs [] (r ∷ rs) s e b = absurd b
accs-Replays evs (entry ∷ accs) [] s e b = absurd b
accs-Replays evs ((name, a) ∷ accs) (r ∷ rs) s e (n, counter, match, f, st, l, sg, rest) =
    (acc-Replays evs name a r s e.0 e.1 n counter match, accs-Replays evs accs rs s e.2 rest)

names-lookup :
    (name : Text) (accs : Map ReplayAcc) (rs : List Rule) (s : Store)
    → Rebuild accs rs s
    → any (λ (r : Rule). text_eq r.name name) rs ≡ is_some (lookup name accs)
unfolding lookup
names-lookup name [] [] s b = refl
names-lookup name [] (r ∷ rs) s b = absurd b
names-lookup name (entry ∷ accs) [] s b = absurd b
names-lookup name ((n, a) ∷ accs) (r ∷ rs) s b =
    ground (arith, b.0, names-lookup name accs rs s b.7)

lookup-collect :
    (name : Text) (evs : List Event) (accs : Map ReplayAcc)
    → is_nil name ≡ false
    → is_some (lookup name (collect evs accs)) ≡ (is_some (lookup name accs) || occurs name evs)
unfolding collect
lookup-collect name [] accs h = ground arith
lookup-collect name (ev ∷ evs) accs h =
    lookup-collect name evs (step ev accs) h
    ∙ ground (
      arith,
      h,
      text_eq_iff ev.rule name,
      lookup-insert ev.rule name (observe ev (acc_of ev.rule accs)) accs,
    )

-- The rules that are built from any recorded events replay them: no option panics, each recorded rule
-- name has a rule and only these, and each rule fires at its k-th match, until the counter overflows,
-- exactly if its k-th recorded event fired, and matches the kinds of the ops that it was evaluated
-- against.
pub build_replay_rules-AllReplay :
    (evs : List Event) (s : Store) → AllReplay evs (build_replay_rules evs s)
unfolding build_replay_rules
build_replay_rules-AllReplay evs s =
    go (replay_rules (collect evs []) s) (replay_rules-Builds (collect evs []) s)
  where
    go : (o : Option (List Rule × Store)) → Builds (collect evs []) s o → AllReplay evs o
    go none h = h
    go (some (rs, s')) (kept, b) =
        let (distinct, are_named) = collect-IsKeyed evs [] (tt, tt) in
        (
          accs-Replays evs (collect evs []) rs s'
              (AreEntries-self (collect evs []) distinct are_named) b,
          λ name h.
              names-lookup name (collect evs []) rs s' b
              ∙ lookup-collect name evs [] h
              ∙ unfold lookup in refl,
        )
