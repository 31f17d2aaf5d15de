-- ===== src/Fault/Clock.antt =====
-- The clock skew of a context (fault/clock.go): who sees what a Clock fault stores.
use chaotic.Base.{ℕ, ◌≡◌, ◌≢◌, refl, some, arith, ℤ, pos, ◌==◌, if◌then◌else◌}
use chaotic.Fault.{Fault, Context, Cells, clock, apply, skew, reset_clock}

-- A Clock fault that fires on a context sets the skew that every context bound to the same cell
-- reads, until a reset, and leaves the contexts bound to other cells alone.
pub skew-clock :
    (c r : Context) (s : Cells) (d : ℤ) (p q : ℕ)
    → c.cell ≡ some p
    → r.cell ≡ some q
    → (skew r (apply c (clock d) s).cells ≡ (if p == q then d else skew r s))
      × (skew r (reset_clock c (apply c (clock d) s).cells) ≡ (if p == q then pos 0 else skew r s))
unfolding skew apply reset_clock
skew-clock c r s d p q h k = ground arith

-- No other fault changes any skew.
pub skews-apply :
    (c : Context) (f : Fault) (s : Cells)
    → ((d : ℤ) → f ≢ clock d)
    → (apply c f s).cells.skews ≡ s.skews
unfolding apply
skews-apply c (clock d) s h = absurd (h d refl)
skews-apply c f s h = ground arith
