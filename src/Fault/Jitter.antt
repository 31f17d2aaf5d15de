-- ===== src/Fault/Jitter.antt =====
-- The jitter window (fault/fault.go): where a draw lies, and when drawing panics.
use chaotic.Base.{
  ℕ, ◌+◌, ◌≤◌, ◌<◌, ◌≡◌, ◌↔◌, ◌⊎◌, none, some, arith, ℤ, ◌≤ℤ◌, ◌<ℤ◌, pos_part, neg_part, half_word,
}
use chaotic.Fault.{draw, span}

-- The values of a Go int64.
abbrev pub IsInt64 : ℤ → Type 0
IsInt64 a = (pos_part a < half_word) × (neg_part a ≤ half_word)

-- A draw lies in the window `[lo, hi]`, or is `lo` where the window is empty.
pub draw_bounds :
    (lo hi d : ℤ) (gen : ℕ → ℕ)
    → (gen (span lo hi + 1) < span lo hi + 1)
    → draw lo hi gen ≡ some d
    → (lo ≤ℤ d) × ((d ≤ℤ hi) × (lo ≤ℤ hi) ⊎ (d ≡ lo) × (hi <ℤ lo))
unfolding draw
draw_bounds lo hi d gen h e = ground arith

-- `Int64N` panics exactly on a window of `2 ^ 63` durations or more.
pub draw-none :
    (lo hi : ℤ) (gen : ℕ → ℕ)
    → IsInt64 lo
    → IsInt64 hi
    → (draw lo hi gen ≡ none) ↔ ((lo <ℤ hi) × (half_word ≤ span lo hi + 1))
unfolding draw
draw-none lo hi gen l h = ground arith
