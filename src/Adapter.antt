-- ===== src/Adapter.antt =====
-- The adapters (adapter/): how a call of a client library passes the engine. The code that the
-- methods of the adapters share is here.
pub mod Reporting
pub mod Settling
pub mod Kafka
pub mod Nats
pub mod Rabbitmq
pub mod Mongo
pub mod Redis
pub mod Aws
pub mod Grpc
pub mod Net
pub mod Io
pub mod Http
pub mod Httpsrv
pub mod Sql
pub mod Pgx
pub mod Clients
use chaotic.Base.{ℕ, Bool, true, false, if◌then◌else◌, Option, none, some, is_some, ℤ, Text}
use chaotic.Fault.{Context, Any, Err, conn_drop_err, disconnect_err, Outcome, returned, panicked}
use chaotic.Engine.Op.{Op}
use chaotic.Engine.Rule.{Call}
use chaotic.Engine.World.{World, Action, enabled}
use chaotic.Engine.Eval.{eval}
use chaotic.Engine.Action.{before, after, outcome}

-- The errors that a caller of an adapter sees: an error of the real call, an injected one as it is,
-- and the native errors that the adapters make of injected ones.
pub data CallErr : Type 0 where
  own : Text → CallErr
  injected : Err → CallErr
  -- io.EOF, io.ErrUnexpectedEOF, io.ErrShortWrite, syscall.ECONNRESET
  eof unexpected_eof short_write conn_reset : CallErr
  -- *net.OpError: Op, Net and Err
  op_error : Text → Text → CallErr → CallErr
  -- *url.Error: Op, URL and Err
  url_error : Text → Text → CallErr → CallErr
  -- nats.ErrConnectionClosed, amqp.ErrClosed
  nats_closed amqp_closed : CallErr
  -- driver.ErrBadConn, driver.ErrSkip
  bad_conn skip : CallErr
  -- mongo.CommandError with the code 6 and the labels of a network error
  host_unreachable : CallErr
  -- a gRPC status with its code
  status_error : ℕ → CallErr

-- `errors.Is(err, fault.ErrConnDrop)` and `errors.Is(err, fault.ErrDisconnect)`.
abbrev pub is_conn_drop : Err → Bool
is_conn_drop conn_drop_err = true
is_conn_drop e = false

abbrev pub is_disconnect : Err → Bool
is_disconnect disconnect_err = true
is_disconnect e = false

-- How a method ends.
pub data Ended (R : Type 0) : Type 0 where
  ends : R → Ended R
  panics : Any → Ended R

-- `reportOutcome` of an action that is not nil.
unfoldable pub report_outcome : Action → Bool → World → World
report_outcome a is_err w = (after a (outcome a is_err w)).1

module _ {S R : Type 0} where
  -- What follows `Before`: an injected error ends the method, without the real call.
  unfoldable pub proceed :
      (Err → R)
      → (R → Bool)
      → (Action → R → World → World × R)
      → (S → S × R)
      → Action
      → World
      → S
      → Outcome
      → World × S × Ended R
  unfolding report_outcome
  proceed fails failed finish inner a w s (panicked v) = (w, s, panics v)
  proceed fails failed finish inner a w s (returned (some e)) =
      (report_outcome a true w, s, ends (fails e))
  proceed fails failed finish inner a w s (returned none) =
      let (s', r) = inner s in
      let (w', r') = finish a r w in (report_outcome a (failed r) w', s', ends r')

  -- A call through an enabled engine.
  unfoldable pub pass_engine :
      (Err → R)
      → (R → Bool)
      → (Action → R → World → World × R)
      → (S → S × R)
      → Call
      → Op
      → World
      → S
      → World × S × Ended R
  unfolding proceed
  pass_engine fails failed finish inner c op w s =
      let (evaluated, a) = eval c op w in
      let (a', begun, o) = before c.ctx a evaluated in
      proceed fails failed finish inner a' begun s o

  -- A method: the real call alone where the engine is not enabled.
  unfoldable pub intercept_with :
      (Err → R)
      → (R → Bool)
      → (Action → R → World → World × R)
      → (S → S × R)
      → Call
      → Op
      → World
      → S
      → World × S × Ended R
  unfolding pass_engine
  intercept_with fails failed finish inner c op w s =
      if enabled w.engine
      then pass_engine fails failed finish inner c op w s
      else (w, (inner s).0, ends (inner s).1)

abbrev pub as_it_is : {R : Type 0} → Action → R → World → World × R
as_it_is a r w = (w, r)

-- A method that returns an error only.
unfoldable pub intercept :
    {S : Type 0}
    → (Err → CallErr)
    → (S → S × Option CallErr)
    → Call
    → Op
    → World
    → S
    → World × S × Ended (Option CallErr)
unfolding intercept_with
intercept map_err inner = intercept_with (λ e. some (map_err e)) is_some as_it_is inner

-- What a method with a value returns; `none` is the zero value.
abbrev pub Returned : Type 0 → Type 0
Returned V = Option V × Option CallErr

abbrev pub has_failed : {V : Type 0} → Returned V → Bool
has_failed (v, e) = is_some e

-- A method that returns a value and an error.
unfoldable pub intercept_value :
    {S V : Type 0}
    → (Err → CallErr)
    → (S → S × Returned V)
    → Call
    → Op
    → World
    → S
    → World × S × Ended (Returned V)
unfolding intercept_with
intercept_value map_err inner =
    intercept_with (λ e. (none, some (map_err e))) has_failed as_it_is inner

-- `context.Background()`, in place of the caller's context: it is never done and has no clock cell.
abbrev pub background : Call → Call
background c = record c { ctx = record (c.ctx) { done_in = none; cell = none } }

-- A connection or a channel that is wrapped: its own calls pass the engine, too.
pub record Wrapped (V : Type 0) : Type 0 where
  pub inner : V

-- The wrapping of a value that comes without an error.
abbrev pub wrap : {V : Type 0} → Returned V → Returned (Wrapped V)
wrap (v, some e) = (none, some e)
wrap (none, none) = (none, none)
wrap (some v, none) = (some (record { inner = v }), none)

-- A call that opens something, wrapped.
abbrev pub opening : {S V : Type 0} → (S → S × Returned V) → S → S × Returned (Wrapped V)
opening inner s = ((inner s).0, wrap (inner s).1)

-- The `mapErr` of several adapters: ErrConnDrop becomes a native error, the others go through.
abbrev pub on_conn_drop : CallErr → Err → CallErr
on_conn_drop native e = if is_conn_drop e then native else injected e
