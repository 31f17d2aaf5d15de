-- ===== src/Chaostest/Golden.antt =====
-- Recording an engine's decisions and building rules that replay them (chaostest/golden/golden.go).
pub mod Collecting
pub mod Rebuilding
pub mod Entries
pub mod Replaying
use chaotic.Base.{
  ℕ, Bool, true, false, not, ◌&&◌, ◌||◌, if◌then◌else◌, ◌==◌, ℤ, pos, List, [], ◌∷◌, ◌++◌, Option,
  none, some, Text, text_eq, Map, lookup, insert, bytes,
}
use chaotic.Fault.{Fault, Kind, unknown_kind, latency_kind, jittered_kind, plain_err}
use chaotic.Engine.Op.{Op}
use chaotic.Engine.Rule.{Rule, Store}
use chaotic.Engine.Rule.Options.{
  RuleOption, new_rule, match_kind, has_kind, sequence, with_fault, named,
}
use chaotic.Engine.World.{Notice, Reason, rule_fired, rule_skipped, fault_injected, is_nil}

-- `goldenEvent`: a skip has a reason; the kind of its fault is unknown until it is injected.
pub record Event : Type 0 where
  pub fired : Bool
  pub rule : Text
  pub op : Op
  pub reason : Option Reason
  pub fault_kind : Kind
  pub latency : ℤ

abbrev is_unknown : Kind → Bool
is_unknown unknown_kind = true
is_unknown k = false

-- The loop of `recorder.FaultInjected` from the end: the events, and whether one was annotated.
unfoldable pub annotate : Text → Kind → ℤ → List Event → List Event × Bool
annotate rule kind latency [] = ([], false)
annotate rule kind latency (ev ∷ evs) =
    let (evs', done) = annotate rule kind latency evs in
    if done
    then (ev ∷ evs', true)
    else if ev.fired && (text_eq ev.rule rule && is_unknown ev.fault_kind)
    then (record ev { fault_kind = kind; latency = latency } ∷ evs, true)
    else (ev ∷ evs, false)

-- `recorder.RuleFired`, `RuleSkipped` and `FaultInjected`.
unfoldable pub observe_notice : Notice → List Event → List Event
unfolding annotate
observe_notice (rule_fired name op a) evs =
    evs
    ++ record {
      fired = true;
      rule = name;
      op = op;
      reason = none;
      fault_kind = unknown_kind;
      latency = pos 0;
    }
      ∷ []
observe_notice (rule_skipped name op reason) evs =
    evs
    ++ record {
      fired = false;
      rule = name;
      op = op;
      reason = some reason;
      fault_kind = unknown_kind;
      latency = pos 0;
    }
      ∷ []
observe_notice (fault_injected name op kind none) evs = (annotate name kind (pos 0) evs).0
observe_notice (fault_injected name op kind (some d)) evs = (annotate name kind d evs).0

-- `recorder`, on notices in the order in which they come.
unfoldable pub record_all : List Notice → List Event → List Event
unfolding observe_notice
record_all [] evs = evs
record_all (n ∷ ns) evs = record_all ns (observe_notice n evs)

-- `replayAcc`; `kinds` is the set of `order`.
pub record ReplayAcc : Type 0 where
  pub mask : List Bool
  pub order : List ℕ
  pub fault_set : Bool
  pub latency : ℤ
  pub is_err : Bool

abbrev pub blank_acc : ReplayAcc
blank_acc = record { mask = []; order = []; fault_set = false; latency = pos 0; is_err = false }

abbrev pub is_timed : Kind → Bool
is_timed latency_kind = true
is_timed jittered_kind = true
is_timed k = false

-- The fault of the first event that fired.
unfoldable pub observe_fault : Event → ReplayAcc → ReplayAcc
observe_fault ev a =
    if ev.fired && not a.fault_set
    then (if is_timed ev.fault_kind
        then record a { fault_set = true; latency = ev.latency }
        else record a { fault_set = true; is_err = true })
    else a

abbrev pub add_kind : ℕ → List ℕ → List ℕ
add_kind k ks = if has_kind ks k then ks else ks ++ k ∷ []

-- `replayAcc.observe`.
unfoldable pub observe : Event → ReplayAcc → ReplayAcc
unfolding observe_fault
observe ev a =
    observe_fault ev
      (record a { mask = a.mask ++ ev.fired ∷ []; order = add_kind ev.op.kind a.order })

unfoldable pub acc_of : Text → Map ReplayAcc → ReplayAcc
acc_of name accs = elim (lookup name accs) [ none ↦ blank_acc | some a ↦ a ]

-- The first loop of `buildReplayRules`: `ruleOrder` is the order of the map.
unfoldable pub collect : List Event → Map ReplayAcc → Map ReplayAcc
unfolding observe acc_of
collect [] accs = accs
collect (ev ∷ evs) accs =
    collect evs
      (if is_nil ev.rule then accs else insert ev.rule (observe ev (acc_of ev.rule accs)) accs)

-- `ErrReplay`, and the fault of `replayAcc.rule`.
unfoldable pub replay_fault : ReplayAcc → Fault
replay_fault a =
    if a.is_err || not a.fault_set
    then Fault.error (some (plain_err (bytes "chaotic/golden: replayed fault")))
    else Fault.latency a.latency

-- `replayAcc.rule`.
unfoldable pub replay_rule : Text → ReplayAcc → Store → Option (Rule × Store)
unfolding replay_fault new_rule match_kind sequence with_fault named
replay_rule name a s =
    elim (new_rule (match_kind a.order ∷ sequence a.mask ∷ with_fault (replay_fault a) ∷ []) s) [
      | none ↦ none
      | some (r, s') ↦ some (named name r, s')
    ]

-- The second loop of `buildReplayRules`; `none` is a panic of an option.
unfoldable pub replay_rules : Map ReplayAcc → Store → Option (List Rule × Store)
unfolding replay_rule
replay_rules [] s = some ([], s)
replay_rules ((name, a) ∷ accs) s = elim (replay_rule name a s) [
  | none ↦ none
  | some (r, s') ↦ elim (replay_rules accs s') [ none ↦ none | some (rs, s'') ↦ some (r ∷ rs, s'') ]
]

-- `buildReplayRules`.
unfoldable pub build_replay_rules : List Event → Store → Option (List Rule × Store)
unfolding collect replay_rules
build_replay_rules evs s = replay_rules (collect evs []) s

-- `firedNames`.
unfoldable pub fired_names : List Event → List Text
fired_names [] = []
fired_names (ev ∷ evs) = let rest = fired_names evs in if ev.fired then ev.rule ∷ rest else rest

-- `diffSequences`, whether it is empty.
unfoldable pub same_sequences : List Text → List Text → Bool
same_sequences [] [] = true
same_sequences [] (b ∷ bs) = false
same_sequences (a ∷ more) [] = false
same_sequences (a ∷ more) (b ∷ bs) = let rest = same_sequences more bs in text_eq a b && rest
