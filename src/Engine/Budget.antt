-- ===== src/Engine/Budget.antt =====
-- The failure budget (engine/budget.go): the error rate over the last calls, in a ring.
pub mod Ring
pub mod Decision
use chaotic.Base.{
  ℕ, zero, suc, ◌+◌, ◌-◌, ◌*◌, Bool, true, false, if◌then◌else◌, ◌==◌, ltb, leb, ltb_ℤ, ℤ, pos,
  pos_part, List, length, get_or, set, replicate, Option, none, some,
}

-- The maximal rate is the fraction `rate_num / rate_den`; `ring` holds true for an error.
pub record Budget : Type 0 where
  pub rate_num : ℕ
  pub rate_den : ℕ
  pub ring : List Bool
  pub idx : ℕ
  pub filled : Bool
  pub errors : ℕ

-- `newFailureBudget`; `none` is its panic on a rate outside [0, 1] or a window below 1. The
-- numerator has the sign of the rate.
unfoldable pub new_failure_budget : ℤ → ℕ → ℤ → Option Budget
new_failure_budget rate_num rate_den window =
    if ltb_ℤ rate_num (pos 0)
    then none
    else if ltb rate_den (pos_part rate_num)
    then none
    else if ltb_ℤ window (pos 1)
    then none
    else some (record {
      rate_num = pos_part rate_num;
      rate_den = rate_den;
      ring = replicate (pos_part window) false;
      idx = 0;
      filled = false;
      errors = 0;
    })

-- `record`, given whether the call failed.
unfoldable pub record_outcome : Bool → Budget → Budget
record_outcome is_err b =
    let errors = if get_or b.ring b.idx false then b.errors - 1 else b.errors in
    let errors' = if is_err then errors + 1 else errors in
    let ring = set b.ring b.idx is_err in
    let next = b.idx + 1 in
    if next == length ring
    then record b { ring = ring; errors = errors'; idx = 0; filled = true }
    else record b { ring = ring; errors = errors'; idx = next }

-- `overBudget`: `errors / len(ring) >= maxRate`, multiplied out.
unfoldable pub over_budget : Budget → Bool
over_budget b = if b.filled then leb (b.rate_num * length b.ring) (b.errors * b.rate_den) else false
