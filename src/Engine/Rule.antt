-- ===== src/Engine/Rule.antt =====
-- Rules and their decision (engine/rule.go, engine/match_time.go, engine/match_regex.go,
-- engine/perrule.go, and `decideFire` of engine/engine.go).
pub mod Options
pub mod Precedence
use chaotic.Base.{
  ℕ, suc, ◌+◌, Bool, true, false, ◌&&◌, if◌then◌else◌, List, [], ◌∷◌, ◌++◌, Option, none, some,
  Text,
}
use chaotic.Fault.{Fault, Context, update}
use chaotic.Engine.Op.{Op}
use chaotic.Engine.Counter.{Counter, always, should_fire}
use chaotic.Engine.Staged.{StagedCounter, fire}
use chaotic.Engine.Sticky.{Tracker, sticky, mark}
use chaotic.Engine.Bucket.{Bucket, allow}

-- What a call reads of its surroundings: its context, the monotonic clock in nanoseconds, and the
-- local wall clock.
pub record Call : Type 0 where
  pub ctx : Context
  pub now : ℕ
  pub hour : ℕ
  pub minute : ℕ

-- The objects that rules share by pointers. Copies of a rule hold the same pointers. A pointer is
-- a number below `next`, which is the next one to be given out.
pub record Store : Type 0 where
  pub counters : ℕ → Counter
  pub stageds : ℕ → StagedCounter
  pub trackers : ℕ → Tracker
  pub buckets : ℕ → Bucket
  pub next : ℕ

abbrev pub Matcher : Type 0
Matcher = Call → Op → Bool

pub record Rule : Type 0 where
  pub name : Text
  pub matchers : List Matcher
  pub counter : ℕ
  pub faults : List Fault
  pub sticky_at : Option ℕ
  pub limiter_at : Option ℕ
  pub staged_at : Option ℕ

-- `matches`: every selector holds.
unfoldable pub all_match : List Matcher → Call → Op → Bool
all_match [] c op = true
all_match (m ∷ ms) c op = let rest = all_match ms c op in if m c op then rest else false

unfoldable pub matches : Rule → Call → Op → Bool
unfolding all_match
matches r c op = all_match r.matchers c op

-- The first case of `decideFire`: a tracker that finds the op hot.
unfoldable pub is_hot : Option ℕ → ℕ → Op → Store → Store × Bool
is_hot none now op s = (s, false)
is_hot (some p) now op s =
    let (t, hot) = sticky now op (s.trackers p) in
    (record s { trackers = update s.trackers p t }, hot)

unfoldable pub mark_hot : Option ℕ → ℕ → Op → Store → Store
mark_hot none now op s = s
mark_hot (some p) now op s = record s {
  trackers = update s.trackers p (mark now op (s.trackers p));
}

-- The remaining cases: the stages, where there are any, or else the counter.
unfoldable pub by_schedule : Rule → Option ℕ → ℕ → Op → Store → Store × Option (List Fault)
unfolding mark_hot
by_schedule r (some p) now op s =
    let (c, faults) = fire (s.stageds p) in (record s { stageds = update s.stageds p c }, faults)
by_schedule r none now op s =
    let (c, fires) = should_fire (s.counters r.counter) in
    let s' = record s { counters = update s.counters r.counter c } in
    if fires then (mark_hot r.sticky_at now op s', some r.faults) else (s', none)

-- `decideFire`: `none` is "does not fire".
unfoldable pub decide_fire : Rule → ℕ → Op → Store → Store × Option (List Fault)
unfolding is_hot by_schedule
decide_fire r now op s =
    let (s', hot) = is_hot r.sticky_at now op s in
    if hot then (s', some r.faults) else by_schedule r r.staged_at now op s'

-- The rule's own rate limit; a rule without one is never throttled.
unfoldable pub rule_allows : Option ℕ → ℕ → Store → Store × Bool
rule_allows none now s = (s, true)
rule_allows (some p) now s =
    let (b, ok) = allow now (s.buckets p) in (record s { buckets = update s.buckets p b }, ok)
