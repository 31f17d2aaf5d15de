-- ===== src/Engine/Counter.antt =====
-- The counters of a rule (engine/rule.go): each decides whether a match fires, and advances.
pub mod Schedule
use chaotic.Base.{
  ℕ, suc, ◌+◌, ◌-◌, ◌%◌, Bool, true, false, ◌&&◌, ◌||◌, if◌then◌else◌, ltb, leb, ltb_ℤ, leb_ℤ, ℤ,
  pos, pos_part, int64, inc64, full_word, List, length, get_or,
}

-- `cur` is the bit pattern of an `atomic.Int64`. A probability is a threshold in units of 2^-53,
-- the grid of `rand.Float64`; its generator is the stream of the draws, in that unit.
pub data Counter : Type 0 where
  always : Counter
  times : ℤ → ℕ → Counter
  range : ℤ → ℤ → ℕ → Counter
  prob : ℕ → (ℕ → ℕ) → ℕ → Counter
  sequence : List Bool → ℕ → Counter

-- `shouldFire` of each counter type.
unfoldable pub should_fire : Counter → Counter × Bool
should_fire always = (always, true)
should_fire (times n cur) = let cur' = inc64 cur in (times n cur', leb_ℤ (int64 cur') n)
should_fire (range from to cur) =
    let cur' = inc64 cur in (range from to cur', leb_ℤ from (int64 cur') && leb_ℤ (int64 cur') to)
should_fire (prob p draws drawn) = (prob p draws (suc drawn), ltb (draws drawn) p)
should_fire (sequence fire cur) =
    let cur' = inc64 cur in
    let i = int64 ((cur' + full_word - 1) % full_word) in
    (
      sequence fire cur',
      if ltb_ℤ i (pos 0) || leb (length fire) (pos_part i)
          then false
          else get_or fire (pos_part i) false,
    )
