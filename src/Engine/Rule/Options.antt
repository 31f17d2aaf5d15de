-- ===== src/Engine/Rule/Options.antt =====
-- The rule options and the construction of rules (engine/rule.go, engine/staged.go,
-- engine/sticky.go, engine/perrule.go).
use chaotic.Base.{
  ℕ, suc, ◌+◌, ◌*◌, Bool, true, false, if◌then◌else◌, ltb, ℤ, pos, pos_part, List, [], ◌∷◌, ◌++◌,
  Option, none, some, Text, ◌==◌, ◌&&◌, ◌||◌, leb, lookup, text_eq, Float, nan, scaled, one_scaled,
  below_float, above_float,
}
use chaotic.Fault.{Fault, update}
use chaotic.Engine.Op.{Kind}
use chaotic.Engine.Counter.{Counter}
use chaotic.Engine.Staged.{Stage, validate_stages, new_staged_counter}
use chaotic.Engine.Sticky.{new_tracker}
use chaotic.Engine.Bucket.{new_token_bucket}
use chaotic.Engine.Rule.{Rule, Store, Matcher}

-- `func(*Rule)`; `none` is a panic of its body. It may allocate.
abbrev pub RuleOption : Type 0
RuleOption = Rule → Store → Option (Rule × Store)

-- `r.counter = &counter`.
unfoldable pub set_counter : Counter → RuleOption
unfolding update
set_counter c r s = some (
  record r { counter = s.next },
  record s { counters = update s.counters s.next c; next = suc s.next },
)

-- The loop of `NewRule` over its options.
unfoldable pub apply_options : List RuleOption → RuleOption
apply_options [] r s = some (r, s)
apply_options (o ∷ os) r s = elim (o r s) [ none ↦ none | some (r', s') ↦ apply_options os r' s' ]

-- `Rule{counter: &alwaysCounter{}}`.
unfoldable pub blank_rule : Store → Rule × Store
unfolding update
blank_rule s = (
  record {
    name = [];
    matchers = [];
    counter = s.next;
    faults = [];
    sticky_at = none;
    limiter_at = none;
    staged_at = none;
  },
  record s { counters = update s.counters s.next Counter.always; next = suc s.next },
)

unfoldable pub new_rule : List RuleOption → Store → Option (Rule × Store)
unfolding blank_rule apply_options
new_rule os s = let (r, s') = blank_rule s in apply_options os r s'

-- `r.matchers = append(r.matchers, m)`.
abbrev add_matcher : Matcher → RuleOption
add_matcher m r s = some (record r { matchers = r.matchers ++ m ∷ [] }, s)

unfoldable pub has_kind : List Kind → Kind → Bool
has_kind [] k = false
has_kind (j ∷ ks) k = let rest = has_kind ks k in if k == j then true else rest

unfoldable pub match_kind : List Kind → RuleOption
unfolding has_kind
match_kind ks = add_matcher λ c op. has_kind ks op.kind

-- `MatchName`, given `path.Match`: `none` is its error on a malformed pattern.
unfoldable pub match_name : (Text → Text → Option Bool) → Text → RuleOption
match_name path_match pattern =
    add_matcher λ c op. elim (path_match pattern op.name) [ none ↦ false | some b ↦ b ]

unfoldable pub match_attr : Text → Text → RuleOption
match_attr key value =
    add_matcher λ c op. elim (lookup key op.attrs) [ none ↦ false | some v ↦ text_eq v value ]

unfoldable pub match_predicate : Matcher → RuleOption
match_predicate fn = add_matcher fn

-- A compiled expression is its `MatchString`; `none` is the nil pointer.
unfoldable pub match_name_regex : Option (Text → Bool) → RuleOption
match_name_regex none = add_matcher λ c op. false
match_name_regex (some re) = add_matcher λ c op. re op.name

-- The test of `matchTimeWindowAt`, on minutes of the day.
unfoldable pub in_window : ℕ → ℕ → ℕ → Bool
in_window start end cur =
    if start == end
    then false
    else if ltb start end
    then leb start cur && ltb cur end
    else leb start cur || ltb cur end

unfoldable pub match_time_window : ℕ → ℕ → ℕ → ℕ → RuleOption
unfolding in_window
match_time_window start_h start_m end_h end_m =
    add_matcher
      λ c op. in_window (start_h * 60 + start_m) (end_h * 60 + end_m) (c.hour * 60 + c.minute)

unfoldable pub always : RuleOption
unfolding set_counter
always = set_counter Counter.always

unfoldable pub times : ℤ → RuleOption
unfolding set_counter
times n = set_counter (Counter.times n 0)

unfoldable pub range : ℤ → ℤ → RuleOption
unfolding set_counter
range from to = set_counter (Counter.range from to 0)

-- The draws below a probability, as a threshold; none is below NaN.
abbrev pub threshold : Float → ℕ
threshold nan = 0
threshold (scaled p) = pos_part p

-- `Probability`, with the draws of the seeded generator; `none` is its panic outside [0, 1].
unfoldable pub probability : Float → (ℕ → ℕ) → Option RuleOption
unfolding set_counter
probability p draws =
    if below_float p (pos 0)
    then none
    else if above_float p (pos one_scaled)
    then none
    else some (set_counter (Counter.prob (threshold p) draws 0))

unfoldable pub sequence : List Bool → RuleOption
unfolding set_counter
sequence fire = set_counter (Counter.sequence fire 0)

unfoldable pub with_fault : Fault → RuleOption
with_fault f r s = some (record r { faults = r.faults ++ f ∷ [] }, s)

unfoldable pub with_faults : List Fault → RuleOption
with_faults fs r s = some (record r { faults = r.faults ++ fs }, s)

-- `StickyAttr`: every rule that the option is applied to has a tracker of its own.
unfoldable pub sticky_attr : Text → ℤ → ℤ → RuleOption
unfolding update
sticky_attr key window cap r s = some (
  record r { sticky_at = some s.next },
  record s { trackers = update s.trackers s.next (new_tracker key window cap); next = suc s.next },
)

-- `WithStages` allocates its counter when it is called, so the rules that are built with one option
-- value share it; `none` is its panic.
unfoldable pub with_stages : List Stage → Store → Option (RuleOption × Store)
unfolding update
with_stages stages s = elim (validate_stages stages) [
  | some e ↦ none
  | none ↦ some (
    (λ r s'. some (record r { staged_at = some s.next }, s')),
    record s { stageds = update s.stageds s.next (new_staged_counter stages); next = suc s.next },
  )
]

-- `WithPerRuleRateLimit` at the time that `time.Now` gives; the panic is that of the bucket.
unfoldable pub with_per_rule_rate_limit : ℤ → ℕ → RuleOption
unfolding update
with_per_rule_rate_limit rps now r s = elim (new_token_bucket rps now) [
  | none ↦ none
  | some b ↦ some (
    record r { limiter_at = some s.next },
    record s { buckets = update s.buckets s.next b; next = suc s.next },
  )
]

-- `Named` and `Name`.
unfoldable pub named : Text → Rule → Rule
named name r = record r { name = name }
