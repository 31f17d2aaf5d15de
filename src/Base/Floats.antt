-- ===== src/Base/Floats.antt =====
-- The float64 values that the program compares: a number in units of 2^-53 (the grid of
-- `rand.Float64`, on which a comparison with a draw is exact), or NaN, with which no comparison holds.
use Prim.Native.Nat.{ℕ}
use mathlib.Core.Bool.{Bool, false}
use chaotic.Base.Int.{ℤ, ltb_ℤ}

pub data Float : Type 0 where
  nan : Float
  scaled : ℤ → Float

-- 1.0 in these units.
abbrev pub one_scaled : ℕ
one_scaled = 9007199254740992

abbrev pub below_float : Float → ℤ → Bool
below_float nan k = false
below_float (scaled x) k = ltb_ℤ x k

abbrev pub above_float : Float → ℤ → Bool
above_float nan k = false
above_float (scaled x) k = ltb_ℤ k x
