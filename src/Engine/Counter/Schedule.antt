-- ===== src/Engine/Counter/Schedule.antt =====
-- What a counter decides at its k-th evaluation, in closed form.
use chaotic.Base.{
  ℕ, zero, suc, ◌+◌, ◌≤◌, ◌<◌, ◌≡◌, refl, Bool, true, false, ◌&&◌, if◌then◌else◌, ltb, leb_ℤ, pos,
  half_word, List, [], ◌∷◌, length, get_or, arith, min,
}
use chaotic.Engine.Counter.{Counter, always, times, range, prob, sequence, should_fire}

-- The counter after `k` evaluations.
pub advance : ℕ → Counter → Counter
advance zero c = c
advance (suc k) c = (should_fire (advance k c)).0

-- A counter as its option makes it.
abbrev pub IsFresh : Counter → Type 0
IsFresh always = Unit {0}
IsFresh (times n cur) = cur ≡ 0
IsFresh (range from to cur) = cur ≡ 0
IsFresh (prob p draws drawn) = drawn ≡ 0
IsFresh (sequence fire cur) = cur ≡ 0

-- The decision at the match with index `k`, counted from 0.
abbrev pub decision : Counter → ℕ → Bool
decision always k = true
decision (times n cur) k = leb_ℤ (pos (k + 1)) n
decision (range from to cur) k = leb_ℤ from (pos (k + 1)) && leb_ℤ (pos (k + 1)) to
decision (prob p draws drawn) k = ltb (draws k) p
decision (sequence fire cur) k = get_or fire k false

-- `c` with its position set to `k`.
abbrev at : Counter → ℕ → Counter
at always k = always
at (times n cur) k = times n k
at (range from to cur) k = range from to k
at (prob p draws drawn) k = prob p draws k
at (sequence fire cur) k = sequence fire k

get_or_above : (xs : List Bool) (k : ℕ) → length xs ≤ k → get_or xs k false ≡ false
get_or_above [] k h = refl
get_or_above (x ∷ xs) zero h = elim h [ ]
get_or_above (x ∷ xs) (suc k) h = get_or_above xs k (omega arith)

should_fire-at :
    (c : Counter) (k : ℕ)
    → k + 1 < half_word
    → ((should_fire (at c k)).0 ≡ at c (suc k)) × ((should_fire (at c k)).1 ≡ decision c k)
unfolding should_fire
should_fire-at always k h = (refl, refl)
should_fire-at (times n cur) k h = ground arith
should_fire-at (range from to cur) k h = ground arith
should_fire-at (prob p draws drawn) k h = (refl, refl)
should_fire-at (sequence fire cur) k h = ground (arith, get_or_above fire k)

advance-at : (k : ℕ) (c : Counter) → IsFresh c → k < half_word → advance k c ≡ at c k
unfolding advance
advance-at zero always f h = refl
advance-at zero (times n cur) f h = cc
advance-at zero (range from to cur) f h = cc
advance-at zero (prob p draws drawn) f h = cc
advance-at zero (sequence fire cur) f h = cc
advance-at (suc k) c f h =
    rw (advance-at k c f (omega arith), advance) (should_fire-at c k (omega arith)).0

-- Until the 64-bit counter overflows, every counter fires at exactly the matches of its schedule:
-- always; the first n (none if n < 1); those from `from` to `to`, counted from 1; those whose draw
-- is below the probability; those marked in the list, and none after its end.
pub should_fire-decision :
    (k : ℕ) (c : Counter)
    → IsFresh c
    → k + 1 < half_word
    → (should_fire (advance k c)).1 ≡ decision c k
should_fire-decision k c f h = rw (advance-at k c f (omega arith)) (should_fire-at c k h).1

-- How often a counter has fired in its first `k` evaluations.
pub fired : ℕ → Counter → ℕ
fired zero c = 0
fired (suc k) c = let rest = fired k c in if (should_fire (advance k c)).1 then suc rest else rest

-- `Times(n)` fires min(n, k) times in k matches.
pub fired-times : (k n : ℕ) → k < half_word → fired k (times (pos n) 0) ≡ min n k
unfolding fired
fired-times zero n h = omega arith
fired-times (suc k) n h = ground (
  arith,
  should_fire-decision k (times (pos n) 0) refl (omega arith),
  fired-times k n (omega arith),
)
