-- ===== src/Adapter/Http/Settling.antt =====
-- How a round trip ends, and what the engine has counted of it.
use chaotic.Base.{
  ◌≡◌, refl, Bool, true, leb_ℤ, pos, none, some, is_some, Text, bytes, if◌then◌else◌, arith, [],
  ◌∷◌,
}
use chaotic.Fault.{
  Err, conn_drop_err, disconnect_err, http_status_err, header_err, stream_err, context_err,
  plain_err, Outcome, returned, panicked,
}
use chaotic.Engine.Op.{Op}
use chaotic.Engine.Op.Kinds
use chaotic.Engine.Rule.{Call}
use chaotic.Engine.World.{World, Action, enabled}
use chaotic.Engine.Action.{result}
use chaotic.Engine.Action.Slots.{held_slots, WithinCapacity, result-engine}
use chaotic.Adapter.{Ended, ends, panics, Returned}
use chaotic.Adapter.Reporting.{if-kept, Begun, begin, begin-Begun, Begun-report, Reported}
use chaotic.Adapter.Http.{
  HttpLib, Response, Request, synth_response, translate_error, report_result, with_header_fault,
  abort, apply_header_fault, proceed, engine_trip, round_trip,
}

-- What the transport evaluates.
abbrev pub trip_op : Request → Op
trip_op req = record {
  kind = Kinds.http_client;
  name = req.path;
  method = req.method;
  attrs = (bytes "host", req.host) ∷ [];
}

module _ {H S : Type 0} (lib : HttpLib H) (wrapped : S → S × Returned (Response H)) where
  -- The caller's answer, of a real one: a response that comes without an error is what the action's
  -- mutators make of it, or as it was if they make no response; anything else is as it was.
  abbrev pub Mutated : Action → World → Returned (Response H) → Returned (Response H) → Type 0
  Mutated a w (none, e) r = r ≡ (none, e)
  Mutated a w (some resp, some e) r = r ≡ (some resp, some e)
  Mutated a w (some resp, none) r = r ≡ (
    some (elim (lib.as_response (result a (lib.as_any resp) w).0) [
      | none ↦ resp
      | some changed ↦ changed
    ]),
    none,
  )

  -- The caller's answer, of a real one, under a header fault: one header changed.
  abbrev pub Headed : Bool → Text → Text → Returned (Response H) → Returned (Response H) → Type 0
  Headed strip key value (none, e) r = r ≡ (none, e)
  Headed strip key value (some resp, e) r = r ≡ (
    some (record resp {
      header = if strip then lib.del key resp.header else lib.set key value resp.header;
    }),
    e,
  )

  -- A real call was made, once, and the outcome is whether it had an error.
  abbrev pub Answers :
      (Returned (Response H) → Type 0)
      → World
      → S
      → World × S × Ended (Returned (Response H))
      → Type 0
  Answers Seen w s (w', s', panics v) = ⊥
  Answers Seen w s (w', s', ends r) =
      (s' ≡ (wrapped s).0) × Seen r × Reported w (is_some (wrapped s).1.1) w'

  -- No real call was made.
  abbrev pub Aborts :
      Returned (Response H) → Bool → World → S → World × S × Ended (Returned (Response H)) → Type 0
  Aborts answer failure w s (w', s', r) = (s' ≡ s) × (r ≡ ends answer) × Reported w failure w'

  -- What a round trip leaves under an injected error.
  abbrev pub Injects : Text → Err → World → S → World × S × Ended (Returned (Response H)) → Type 0
  Injects url (http_status_err code text) w s out =
      Aborts (some (synth_response lib code text), none) (leb_ℤ (pos 500) code) w s out
  Injects url (header_err strip key value) w s out =
      Answers (Headed strip key value (wrapped s).1) w s out
  Injects url e w s out = Aborts (none, some (translate_error lib url e)) true w s out

  -- What a round trip leaves, by the action and the world that `Before` leaves and its outcome.
  abbrev pub Trips :
      Text
      → Action × World × Outcome
      → World
      → S
      → World × S × Ended (Returned (Response H))
      → Type 0
  Trips url (a, w1, panicked v) w s (w', s', r) =
      (held_slots w'.engine.max_conc ≡ held_slots w.engine.max_conc)
      × (w'.engine.budget ≡ w.engine.budget)
      × (s' ≡ s)
      × (r ≡ panics v)
  Trips url (a, w1, returned none) w s out = Answers (Mutated a w1 (wrapped s).1) w s out
  Trips url (a, w1, returned (some e)) w s out = Injects url e w s out

  report_result-Mutated :
      (a : Action) (r : Returned (Response H)) (w : World)
      → ((report_result lib a r w).0.engine ≡ w.engine) × Mutated a w r (report_result lib a r w).1
  unfolding report_result
  report_result-Mutated a (none, e) w = (refl, refl)
  report_result-Mutated a (some resp, some e) w = (refl, refl)
  report_result-Mutated a (some resp, none) w = (result-engine a (lib.as_any resp) w, refl)

  with_header_fault-Headed :
      (strip : Bool) (key value : Text) (r : Returned (Response H))
      → Headed strip key value r (with_header_fault lib strip key value r)
  unfolding with_header_fault apply_header_fault
  with_header_fault-Headed strip key value (none, e) = refl
  with_header_fault-Headed strip key value (some resp, e) = refl

  abort-Aborts :
      (url : Text) (w : World) (a : Action) (w1 : World) (s : S) (e : Err) (o : Outcome)
      → Begun w a w1 o
      → Aborts (none, some (translate_error lib url e)) true w s (abort lib wrapped url a w1 s e)
  unfolding abort
  abort-Aborts url w a w1 s e o b = (refl, refl, Begun-report w a w1 w1 o true b refl)

  proceed-Trips :
      (url : Text) (w : World) (a : Action) (w1 : World) (s : S) (o : Outcome)
      → Begun w a w1 o
      → Trips url (a, w1, o) w s (proceed lib wrapped url a w1 s o)
  unfolding proceed
  proceed-Trips url w a w1 s (panicked v) b =
      (omega (arith, b.slots, b.free refl), b.budget, refl, refl)
  proceed-Trips url w a w1 s (returned none) b =
      let (same, seen) = report_result-Mutated a (wrapped s).1 w1 in
      (refl, seen, Begun-report w a w1 _ _ (is_some (wrapped s).1.1) b same)
  proceed-Trips url w a w1 s (returned (some (http_status_err code text))) b =
      (refl, refl, Begun-report w a w1 w1 _ (leb_ℤ (pos 500) code) b refl)
  proceed-Trips url w a w1 s (returned (some (header_err strip key value))) b =
      let seen = with_header_fault-Headed strip key value (wrapped s).1 in
      (refl, seen, Begun-report w a w1 w1 _ (is_some (wrapped s).1.1) b refl)
  proceed-Trips url w a w1 s (returned (some conn_drop_err)) b =
      abort-Aborts url w a w1 s conn_drop_err _ b
  proceed-Trips url w a w1 s (returned (some disconnect_err)) b =
      abort-Aborts url w a w1 s disconnect_err _ b
  proceed-Trips url w a w1 s (returned (some (stream_err m x y))) b =
      abort-Aborts url w a w1 s (stream_err m x y) _ b
  proceed-Trips url w a w1 s (returned (some (context_err t))) b =
      abort-Aborts url w a w1 s (context_err t) _ b
  proceed-Trips url w a w1 s (returned (some (plain_err t))) b =
      abort-Aborts url w a w1 s (plain_err t) _ b

-- A round trip through an enabled engine, by how `Before` of its action ends. Without an error, the
-- real call is made once; its answer is the caller's, with a response that came without an error as
-- the action's mutators leave it; and whether it had an error is the outcome. A header fault changes
-- one header of the real response instead. An injected status makes no real call: the response is
-- synthesized, and the outcome is a failure from 500 on. Any other error makes no real call, is
-- mapped, and counts as a failure. In all of these one outcome is recorded and as many slots are in
-- use as before. A panic of a fault goes through, with no real call, outcome or slot.
pub round_trip-Trips :
    {H S : Type 0} (lib : HttpLib H) (wrapped : S → S × Returned (Response H)) (req : Request)
    (c : Call) (w : World) (s : S)
    → enabled w.engine ≡ true
    → WithinCapacity w.engine.max_conc
    → Trips lib wrapped req.url (begin c (trip_op req) w) w s (round_trip lib wrapped req c w s)
unfolding round_trip engine_trip
round_trip-Trips lib wrapped req c w s on h =
    let (a, begun, o) = begin c (trip_op req) w in
    if-kept (Trips lib wrapped req.url (a, begun, o) w s) (enabled w.engine) _ _ on
      (proceed-Trips lib wrapped req.url w a begun s o (begin-Begun c (trip_op req) w on h))
