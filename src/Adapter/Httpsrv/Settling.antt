-- ===== src/Adapter/Httpsrv/Settling.antt =====
-- How the middleware ends, and what the engine has counted of it.
use chaotic.Base.{
  ◌+◌, ◌≡◌, refl, true, false, leb_ℤ, ℤ, pos, List, [], ◌∷◌, Option, none, some, bytes,
  if◌then◌else◌, arith,
}
use chaotic.Fault.{
  Any, Err, conn_drop_err, disconnect_err, http_status_err, header_err, stream_err, context_err,
  plain_err, Outcome, returned, panicked,
}
use chaotic.Engine.Op.{Op}
use chaotic.Engine.Op.Kinds
use chaotic.Engine.Rule.{Call}
use chaotic.Engine.World.{World, Action, enabled}
use chaotic.Engine.Action.Slots.{as_held, held_slots, WithinCapacity}
use chaotic.Adapter.{report_outcome}
use chaotic.Adapter.Reporting.{if-kept, Begun, begin, begin-Begun, Begun-report, Reported}
use chaotic.Adapter.Httpsrv.{
  Write, header, body, record_write, record_writes, Answer, served, panics, Exchange, Handler,
  handle_err, serve, apply_header_fault, abort, proceed, engine_serve, middleware,
}

-- The status that the first write decides.
abbrev pub first_status : List Write → ℤ
first_status [] = pos 200
first_status (header code ∷ xs) = code
first_status (body text ∷ xs) = pos 200

record_writes-written :
    (xs : List Write) (code : ℤ)
    → (record_writes xs (record { status = code; written = true })).status ≡ code
unfolding record_writes record_write
record_writes-written [] code = refl
record_writes-written (header later ∷ xs) code = record_writes-written xs code
record_writes-written (body text ∷ xs) code = record_writes-written xs code

record_writes-first :
    (xs : List Write)
    → (record_writes xs (record { status = pos 200; written = false })).status ≡ first_status xs
unfolding record_writes record_write
record_writes-first [] = refl
record_writes-first (header code ∷ xs) = record_writes-written xs code
record_writes-first (body text ∷ xs) = record_writes-written xs (pos 200)

-- What the middleware evaluates.
abbrev pub serve_op : {H : Type 0} → Exchange H → Op
serve_op x = record {
  kind = Kinds.http_server;
  name = x.path;
  method = x.method;
  attrs = (bytes "remote", x.remote) ∷ [];
}

-- After a handler that wrote `xs`: its answer is counted by its status, and every slot is given back;
-- a panic of the handler goes through, is not counted, and keeps the slot that its action holds.
abbrev pub Finishes : Option Any → List Write → Action → World → World → Answer → Type 0
Finishes none xs a w w' ans = (ans ≡ served xs) × Reported w (leb_ℤ (pos 500) (first_status xs)) w'
Finishes (some v) xs a w w' ans =
    (ans ≡ panics xs v)
    × (w'.engine.budget ≡ w.engine.budget)
    × (held_slots w'.engine.max_conc ≡ held_slots w.engine.max_conc + as_held (some a))

module _ {H S : Type 0} (next : Handler H S) (x : Exchange H) where
  -- The handler was called, once and with these headers.
  abbrev pub Handled : H → Action → World → S → World × S × Answer → Type 0
  Handled h a w s (w', s', ans) =
      (s' ≡ (next h s).0) × Finishes (next h s).2 (next h s).1 a w w' ans

  -- An injected error: a header fault reaches the handler, and any other is the answer, with every
  -- slot given back and a failure counted.
  abbrev pub Injects : Err → Action → World → S → World × S × Answer → Type 0
  Injects (header_err strip key value) a w s out =
      Handled (if strip then x.del key x.headers else x.set key value x.headers) a w s out
  Injects e a w s (w', s', ans) =
      (ans ≡ handle_err x.rejects x.status_text x.error_text x.hijack e)
      × (s' ≡ s)
      × Reported w true w'

  -- What a request leaves, by the outcome of `Before` and the action that it leaves. A panic of a
  -- fault goes through, without the handler, a slot in use or an outcome counted.
  abbrev pub Serves : Outcome → Action → World → S → World × S × Answer → Type 0
  Serves (panicked v) a w s (w', s', ans) =
      (ans ≡ panics [] v)
      × (s' ≡ s)
      × (w'.engine.budget ≡ w.engine.budget)
      × (held_slots w'.engine.max_conc ≡ held_slots w.engine.max_conc)
  Serves (returned none) a w s out = Handled x.headers a w s out
  Serves (returned (some e)) a w s out = Injects e a w s out

  serve-Handled :
      (h : H) (w : World) (a : Action) (w1 : World) (s : S) (o : Outcome)
      → Begun w a w1 o
      → Handled h a w s (serve next h a w1 s)
  unfolding serve
  serve-Handled h w a w1 s o b = (kept (next h s).2, finishes (next h s).2)
    where
      status : ℤ
      status = (record_writes (next h s).1 (record { status = pos 200; written = false })).status

      left : Option Any → World × S × Answer
      left p = elim p [
        | none ↦ (report_outcome a (leb_ℤ (pos 500) status) w1, (next h s).0, served (next h s).1)
        | some v ↦ (w1, (next h s).0, panics (next h s).1 v)
      ]

      kept : (p : Option Any) → (left p).1 ≡ (next h s).0
      kept none = refl
      kept (some v) = refl

      finishes : (p : Option Any) → Finishes p (next h s).1 a w (left p).0 (left p).2
      finishes none = (
        refl,
        rw (record_writes-first (next h s).1)
            (Begun-report w a w1 w1 o (leb_ℤ (pos 500) (first_status (next h s).1)) b refl),
      )
      finishes (some v) = (refl, b.budget, b.slots)

  abort-Reported :
      (w : World) (a : Action) (w1 : World) (s : S) (e : Err) (o : Outcome)
      → Begun w a w1 o
      → let (w', s', ans) = abort next x a w1 s e in
        (ans ≡ handle_err x.rejects x.status_text x.error_text x.hijack e)
        × (s' ≡ s)
        × Reported w true w'
  unfolding abort
  abort-Reported w a w1 s e o b = (refl, refl, Begun-report w a w1 w1 o true b refl)

  proceed-Serves :
      (w : World) (a : Action) (w1 : World) (s : S) (o : Outcome)
      → Begun w a w1 o
      → Serves o a w s (proceed next x a w1 s o)
  unfolding proceed apply_header_fault
  proceed-Serves w a w1 s (panicked v) b =
      (refl, refl, b.budget, omega (arith, b.slots, b.free refl))
  proceed-Serves w a w1 s (returned none) b = serve-Handled x.headers w a w1 s _ b
  proceed-Serves w a w1 s (returned (some (header_err strip key value))) b =
      serve-Handled (apply_header_fault next x strip key value) w a w1 s _ b
  proceed-Serves w a w1 s (returned (some (http_status_err code text))) b =
      abort-Reported w a w1 s (http_status_err code text) _ b
  proceed-Serves w a w1 s (returned (some conn_drop_err)) b =
      abort-Reported w a w1 s conn_drop_err _ b
  proceed-Serves w a w1 s (returned (some disconnect_err)) b =
      abort-Reported w a w1 s disconnect_err _ b
  proceed-Serves w a w1 s (returned (some (stream_err m k l))) b =
      abort-Reported w a w1 s (stream_err m k l) _ b
  proceed-Serves w a w1 s (returned (some (context_err t))) b =
      abort-Reported w a w1 s (context_err t) _ b
  proceed-Serves w a w1 s (returned (some (plain_err t))) b =
      abort-Reported w a w1 s (plain_err t) _ b

-- A request through an enabled engine, by how `Before` of its action ends. Without an error, or with
-- a header fault, which changes the headers, the handler is called once: its answer is counted once,
-- as a failure where the status of its first write is at least 500, and every slot is given back; but
-- after a panic of the handler nothing is counted, and the slot that the action holds stays in use.
-- Any other error is answered without the handler, is counted as a failure, and gives the slot back.
-- A panic of a fault goes through, counts nothing and leaves no slot.
pub middleware-Serves :
    {H S : Type 0} (next : Handler H S) (x : Exchange H) (c : Call) (w : World) (s : S)
    → enabled w.engine ≡ true
    → WithinCapacity w.engine.max_conc
    → let (a, _, o) = begin c (serve_op x) w in Serves next x o a w s (middleware next x c w s)
unfolding middleware engine_serve
middleware-Serves next x c w s on h =
    let (a, begun, o) = begin c (serve_op x) w in
    if-kept (Serves next x o a w s) (enabled w.engine) _ _ on
      (proceed-Serves next x w a begun s o (begin-Begun c (serve_op x) w on h))
