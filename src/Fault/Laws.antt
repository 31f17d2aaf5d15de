-- ===== src/Fault/Laws.antt =====
-- How long a fault sleeps and what it then returns (fault/fault.go).
use chaotic.Base.{
  ℕ, ◌+◌, ◌≤◌, ◌<◌, ◌≡◌, ◌⊎◌, inl, inr, refl, Option, none, some, arith, ℤ, pos_part, max,
  Option-cases,
}
use chaotic.Fault.{
  Fault, Context, Cells, context_err, latency, jittered, seeded_jitter, custom, span, apply, sleep,
  sleep_drawn, draw, seeded_cells,
}
use chaotic.Fault.Jitter.{draw_bounds}

-- A sleep lasts `d` and returns nil, or ends when the context does and returns its error.
pub sleep_lem :
    (c : Context) (d : ℤ)
    → ((sleep c d).0 ≡ none) × ((sleep c d).1 ≡ pos_part d)
      ⊎ ((t : ℕ) × (c.done_in ≡ some t)
          × (t ≤ pos_part d)
          × ((sleep c d).1 ≡ t)
          × ((sleep c d).0 ≡ some (context_err c.done_err)))
unfolding sleep
sleep_lem c d = go c.done_in refl
  where
    go :
        (o : Option ℕ)
        → c.done_in ≡ o
        → ((sleep c d).0 ≡ none) × ((sleep c d).1 ≡ pos_part d)
          ⊎ ((t : ℕ) × (c.done_in ≡ some t)
              × (t ≤ pos_part d)
              × ((sleep c d).1 ≡ t)
              × ((sleep c d).0 ≡ some (context_err c.done_err)))
    go none e = ground arith
    go (some t) e = ground arith

sleep_bound : (c : Context) (d : ℤ) → (sleep c d).1 ≤ pos_part d
unfolding sleep
sleep_bound c d = ground arith

-- The longest that `Apply` of a fault may sleep: the larger end of a window, and what an implementation
-- of the caller sleeps. The others return at once; a stream fault slows its stream later, when the
-- adapter reads or writes it.
abbrev pub longest : Context → Fault → ℕ
longest c (latency d) = pos_part d
longest c (jittered lo hi) = max (pos_part lo) (pos_part hi)
longest c (seeded_jitter lo hi p) = max (pos_part lo) (pos_part hi)
longest c (custom f m) = (f c).1
longest c _ = 0

sleep_drawn-longest :
    (c : Context) (s : Cells) (lo hi : ℤ) (gen : ℕ → ℕ)
    → gen (span lo hi + 1) < span lo hi + 1
    → (sleep_drawn c (draw lo hi gen) s).slept ≤ max (pos_part lo) (pos_part hi)
sleep_drawn-longest c s lo hi gen h = elim (Option-cases (draw lo hi gen)) [
  | inl e ↦ rw e (unfold sleep_drawn in omega arith)
  | inr (d, e) ↦
      rw e (unfold sleep_drawn in omega (arith, sleep_bound c d, drawn_le lo hi d gen h e))
]
  where
    drawn_le :
        (lo hi d : ℤ) (gen : ℕ → ℕ)
        → gen (span lo hi + 1) < span lo hi + 1
        → draw lo hi gen ≡ some d
        → pos_part d ≤ max (pos_part lo) (pos_part hi)
    drawn_le lo hi d gen h e = ground (arith, draw_bounds lo hi d gen h e)

-- `Apply` of no fault of the package sleeps longer than the fault is configured to, whatever the
-- context is and whatever the generators draw below the bounds that they are given.
pub slept-le-longest :
    (c : Context) (f : Fault) (s : Cells)
    → ((n : ℕ) → 0 < n → c.int64_n n < n)
    → ((p k n : ℕ) → 0 < n → (s.rngs p).answers k n < n)
    → (apply c f s).slept ≤ longest c f
unfolding apply
slept-le-longest c (latency d) s g r = unfold sleep_drawn in sleep_bound c d
slept-le-longest c (jittered lo hi) s g r =
    sleep_drawn-longest c s lo hi c.int64_n (g _ (omega arith))
slept-le-longest c (seeded_jitter lo hi p) s g r =
    sleep_drawn-longest c (seeded_cells lo hi p s) lo hi ((s.rngs p).answers (s.rngs p).drawn)
      (r p (s.rngs p).drawn _ (omega arith))
slept-le-longest c (custom f m) s g r = omega arith
slept-le-longest c f s g r = omega arith
