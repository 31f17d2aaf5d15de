-- ===== src/Tests/Schedules.antt =====
-- Counters, stages, sticky values, buckets and budgets.
use chaotic.Base.{
  ℕ, ◌≡◌, ◌+◌, ◌-◌, ◌*◌, ◌≤◌, ◌↔◌, refl, Bool, true, false, List, [], ◌∷◌, Option, none, some, Text,
  bytes, pos, length, drop, min, arith, ℤ, ◌≤ℤ◌, leb_ℤ, lookup, half_word, if◌then◌else◌,
}
use chaotic.Engine.Counter.{Counter, should_fire}
use chaotic.Engine.Counter.Schedule
use chaotic.Engine.Counter.Schedule.{decision, fired, should_fire-decision, fired-times}
use chaotic.Engine.Staged.{fire, new_staged_counter}
use chaotic.Engine.Staged.Schedule.{stage_at, advance, fire-stage_at}
use chaotic.Engine.Sticky.{mark, sticky}
use chaotic.Engine.Sticky.Bounded.{IsValid, mark-IsValid}
use chaotic.Engine.Sticky.Window.{sticky-mark, mark-evicts_soonest}
use chaotic.Engine.Bucket.{allow}
use chaotic.Engine.Bucket.Rate.{allow_after_refill}
use chaotic.Engine.Budget.{Budget, over_budget, new_failure_budget}
use chaotic.Engine.Budget.Ring.{errors_in}
use chaotic.Engine.Budget.Decision.{record_all, over_budget-record_all}
use chaotic.Tests.{query, two_stages, tracker, bucket}

should_fire-decision_example :
    (should_fire (Schedule.advance 2 (Counter.range (pos 2) (pos 3) 0))).1 ≡ true
should_fire-decision_example =
    should_fire-decision 2 (Counter.range (pos 2) (pos 3) 0) refl (omega arith)

fire-stage_at_example : (fire (advance 2 (new_staged_counter two_stages))).1 ≡ stage_at two_stages 2
unfolding chaotic.Engine.Staged.validate_stages
fire-stage_at_example = fire-stage_at two_stages 2 refl (omega arith) (omega arith)

tracker-IsValid : IsValid tracker
unfolding chaotic.Base.lookup
tracker-IsValid = record { distinct = (refl, tt); bounded = omega arith; positive = omega arith }

sticky-mark_example :
    ((sticky 60 query (mark 10 query tracker)).1 ≡ true)
    × (lookup (bytes "7") (sticky 60 query (mark 10 query tracker)).0.seen ≡ some (pos 60))
unfolding chaotic.Base.lookup chaotic.Base.text_eq sticky mark chaotic.Base.insert
    chaotic.Base.delete
sticky-mark_example = sticky-mark 10 60 query query tracker (bytes "7") refl refl

mark-evicts_soonest_example : (pos 20 ≤ℤ pos 20) × (length tracker.seen ≡ 1)
unfolding chaotic.Base.lookup chaotic.Base.text_eq mark chaotic.Base.insert chaotic.Base.delete
mark-evicts_soonest_example =
    mark-evicts_soonest 10 query tracker (bytes "3") (bytes "3") (pos 20) (pos 20) tracker-IsValid
      refl refl refl

mark-IsValid_example : IsValid (mark 10 query tracker)
mark-IsValid_example = mark-IsValid 10 query tracker tracker-IsValid

allow_after_refill_example : (allow 500000010 bucket).1 ≡ true
allow_after_refill_example = allow_after_refill 500000010 bucket (omega arith) (omega arith)

abbrev fresh : Budget
fresh = record {
  rate_num = 1;
  rate_den = 2;
  ring = false ∷ false ∷ [];
  idx = 0;
  filled = false;
  errors = 0;
}

over_budget-record_all_example :
    (over_budget (record_all (true ∷ false ∷ true ∷ []) fresh) ≡ true)
    ↔ ((2 ≤ 3) × (1 * 2 ≤ errors_in (drop 1 (true ∷ false ∷ true ∷ [])) * 2))
unfolding new_failure_budget
over_budget-record_all_example =
    over_budget-record_all (pos 1) 2 (pos 2) fresh (true ∷ false ∷ true ∷ []) refl
