-- ===== src/Adapter/Pgx/Settling.antt =====
-- What a method of pgx leaves with the engine and with its connection.
use chaotic.Base.{
  ◌≡◌, ◌∙◌, ◌⊎◌, refl, sym, ap, Bool, true, false, if◌then◌else◌, Option, none, some, is_some,
  arith, inl, inr,
}
use chaotic.Fault.{Err, Outcome, returned, panicked}
use chaotic.Engine.Op.{Op}
use chaotic.Engine.Rule.{Call}
use chaotic.Engine.World.{World, Action, enabled}
use chaotic.Engine.Eval.{eval}
use chaotic.Engine.Action.{before}
use chaotic.Engine.Action.Slots.{held_slots, WithinCapacity}
use chaotic.Adapter.{Ended, ends, panics, is_conn_drop}
use chaotic.Adapter.Reporting.{Begun, begin-Begun, Begun-report, record_in}
use chaotic.Adapter.Settling.{budget_after}
use chaotic.Adapter.Pgx.{proceed_closing, run_closing, call_closing}

module _ {S R : Type 0} (fails : Err → R) (failed : R → Bool) (inner : S → S × R)
    (close : S → S) where
  -- The real call was made once and its result is the caller's; or an injected error took its place,
  -- after the connection was closed if it is a connection drop; or a panic, and nothing was done.
  abbrev pub Leaves : S → S → Ended R → Type 0
  Leaves s s' (ends r) =
      ((s', r) ≡ inner s)
      ⊎ ((e : Err) × (r ≡ fails e) × (s' ≡ (if is_conn_drop e then close s else s)))
  Leaves s s' (panics v) = s' ≡ s

  -- As many slots in use as before, and one outcome on an enabled engine, unless it was a panic.
  abbrev pub Finishes : World → S → World × S × Ended R → Type 0
  Finishes w s (w', s', r) =
      (held_slots w'.engine.max_conc ≡ held_slots w.engine.max_conc)
      × WithinCapacity w'.engine.max_conc
      × (w'.engine.budget ≡ budget_after (enabled w.engine) failed r w.engine.budget)
      × Leaves s s' r

module _ {S R : Type 0} (fails : Err → R) (failed : R → Bool) (inner : S → S × R) (close : S → S)
    (fails-failed : (e : Err) → failed (fails e) ≡ true) where
  proceed_closing-Finishes :
      (w : World) (a : Action) (w1 : World) (s : S) (o : Outcome)
      → Begun w a w1 o
      → let (w', s', r) = proceed_closing fails failed inner close a w1 s o in
        (held_slots w'.engine.max_conc ≡ held_slots w.engine.max_conc)
        × WithinCapacity w'.engine.max_conc
        × (w'.engine.budget ≡ budget_after true failed r w.engine.budget)
        × Leaves fails failed inner close s s' r
  unfolding proceed_closing
  proceed_closing-Finishes w a w1 s (panicked v) b =
      (omega (arith, b.slots, b.free refl), b.within, b.budget, refl)
  proceed_closing-Finishes w a w1 s (returned (some e)) b =
      let (slots, within, budget) = Begun-report w a w1 w1 _ true b refl in
      (
        slots,
        within,
        budget ∙ ap (λ x. record_in x w.engine.budget) (sym (fails-failed e)),
        inr (e, refl, refl),
      )
  proceed_closing-Finishes w a w1 s (returned none) b =
      let (slots, within, budget) = Begun-report w a w1 w1 _ (failed (inner s).1) b refl in
      (slots, within, budget, inl refl)

  pub call_closing-Finishes :
      (op : Option Op) (c : Call) (w : World) (s : S)
      → is_some op ≡ true
      → WithinCapacity w.engine.max_conc
      → Finishes fails failed inner close w s (call_closing fails failed inner close op c w s)
  unfolding call_closing run_closing
  call_closing-Finishes none c w s k h = cc
  call_closing-Finishes (some op) c w s k h = go (enabled w.engine) refl
    where
      go :
          (b : Bool)
          → enabled w.engine ≡ b
          → Finishes fails failed inner close w s (
              if b
              then run_closing fails failed inner close (some op) c w s
              else (w, (inner s).0, ends (inner s).1))
      go true on =
          let evaluated = eval c op w in
          let begun = before c.ctx evaluated.1 evaluated.0 in
          rw (Finishes, on)
            (proceed_closing-Finishes w begun.0 begun.1 s begun.2 (begin-Begun c op w on h))
      go false off = rw (Finishes, off) (refl, h, refl, inl refl)
