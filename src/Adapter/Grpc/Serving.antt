-- ===== src/Adapter/Grpc/Serving.antt =====
-- What an interceptor of a gRPC server leaves with the engine.
use chaotic.Base.{◌+◌, ◌≡◌, refl, Bool, true, false, none, some, arith, Bool-cases, inl, inr}
use chaotic.Fault.{Err, Outcome, returned, panicked}
use chaotic.Engine.Op.{Op}
use chaotic.Engine.Rule.{Call}
use chaotic.Engine.World.{World, Action, enabled}
use chaotic.Engine.Action.Slots.{as_held, held_slots, WithinCapacity}
use chaotic.Adapter.{Ended, ends, panics}
use chaotic.Adapter.Reporting.{Begun, begin, begin-Begun, Begun-report, Reported}
use chaotic.Adapter.Grpc.{report_handled, proceed_handling, handle_with}

module _ {S R : Type 0} (fails : Err → R) (failed : R → Bool) (handler : S → S × Ended R) where
  -- After a handler: one that returned is counted once, and every slot is given back; after a panic
  -- nothing is counted, and the slot that the action holds stays in use.
  abbrev pub Counted : Ended R → Action → World → World → Type 0
  Counted (ends r) a w w' = Reported w (failed r) w'
  Counted (panics v) a w w' =
      (w'.engine.budget ≡ w.engine.budget)
      × (held_slots w'.engine.max_conc ≡ held_slots w.engine.max_conc + as_held (some a))

  -- What a call leaves, by the outcome of `Before` and the action that it leaves: a panic of a fault,
  -- or an injected error, and the handler was not called; or the handler was called once, and how it
  -- ended is how the call ends.
  abbrev pub Handles : Outcome → Action → World → S → World × S × Ended R → Type 0
  Handles (panicked v) a w s (w', s', r) =
      (r ≡ panics v)
      × (s' ≡ s)
      × (w'.engine.budget ≡ w.engine.budget)
      × (held_slots w'.engine.max_conc ≡ held_slots w.engine.max_conc)
  Handles (returned (some e)) a w s (w', s', r) =
      (r ≡ ends (fails e)) × (s' ≡ s) × Reported w true w'
  Handles (returned none) a w s (w', s', r) =
      (s' ≡ (handler s).0) × (r ≡ (handler s).1) × Counted (handler s).1 a w w'

  -- The same, for an engine that is enabled or not: one that is not is left as it was.
  abbrev pub HandlesIf : Bool → Outcome → Action → World → S → World × S × Ended R → Type 0
  HandlesIf true o a w s out = Handles o a w s out
  HandlesIf false o a w s (w', s', r) = (w' ≡ w) × ((s', r) ≡ handler s)

  abbrev pub HandlesCall : Call → Op → World → S → World × S × Ended R → Type 0
  HandlesCall c op w s out =
      let (a, _, o) = begin c op w in HandlesIf (enabled w.engine) o a w s out

  proceed_handling-Handles :
      (w : World) (a : Action) (w1 : World) (s : S) (o : Outcome)
      → Begun w a w1 o
      → Handles o a w s (proceed_handling fails failed handler a w1 s o)
  unfolding proceed_handling report_handled
  proceed_handling-Handles w a w1 s (panicked v) b =
      (refl, refl, b.budget, omega (arith, b.slots, b.free refl))
  proceed_handling-Handles w a w1 s (returned (some e)) b =
      (refl, refl, Begun-report w a w1 w1 _ true b refl)
  proceed_handling-Handles w a w1 s (returned none) b = go (handler s).0 (handler s).1
    where
      go :
          (s' : S) (r : Ended R)
          → let (w2, s2, r2) = report_handled fails failed handler a w1 (s', r) in
            (s2 ≡ s') × (r2 ≡ r) × Counted r a w w2
      go s' (ends r) = (refl, refl, Begun-report w a w1 w1 _ (failed r) b refl)
      go s' (panics v) = (refl, refl, (b.budget, b.slots))

  pub handle_with-Handles :
      (c : Call) (op : Op) (w : World) (s : S)
      → WithinCapacity w.engine.max_conc
      → HandlesCall c op w s (handle_with fails failed handler c op w s)
  unfolding handle_with
  handle_with-Handles c op w s h = elim (Bool-cases (enabled w.engine)) [
    | inl on ↦
        let (a, begun, o) = begin c op w in
        rw (HandlesIf, on) (proceed_handling-Handles w a begun s o (begin-Begun c op w on h))
    | inr off ↦ rw (HandlesIf, off) (refl, refl)
  ]
