-- ===== src/Adapter/Grpc.antt =====
-- The gRPC interceptors (adapter/grpc/interceptors.go). The invoker, the handler or the streamer, with its
-- arguments, is a parameter; a handler, which is code of the server's user, may panic.
pub mod Serving
use chaotic.Base.{Bool, true, ℕ, [], Option, none, some, is_some, if◌then◌else◌, ◌==◌, Text, bytes}
use chaotic.Fault.{Any, Err, Outcome, returned, panicked}
use chaotic.Engine.Op.{Op}
use chaotic.Engine.Op.Kinds
use chaotic.Engine.Rule.{Call}
use chaotic.Engine.World.{World, Action, enabled}
use chaotic.Engine.Eval.{eval}
use chaotic.Engine.Action.{before, result}
use chaotic.Adapter.{
  CallErr, status_error, injected, Ended, ends, panics, Returned, has_failed, is_conn_drop,
  report_outcome, intercept_with, intercept_value,
}

-- codes.Unknown, codes.Internal and codes.Unavailable.
abbrev pub unknown : ℕ
unknown = 2

abbrev pub internal : ℕ
internal = 13

abbrev pub unavailable : ℕ
unavailable = 14

-- `toStatus`, given `status.FromError`: the code of an error that is a status.
unfoldable pub to_status : (Err → Option ℕ) → Err → CallErr
to_status from_error e = if is_conn_drop e then status_error unavailable else elim (from_error e) [
  | none ↦ status_error internal
  | some code ↦ if code == unknown then status_error internal else injected e
]

-- Where the call succeeds, the mutators see the reply; what they change behind its pointer is not
-- modelled.
unfoldable pub show_reply : Any → Action → Option CallErr → World → World × Option CallErr
show_reply reply a (some e) w = (w, some e)
show_reply reply a none w = ((result a reply w).1, none)

-- `UnaryClientInterceptor`.
unfoldable pub unary_client :
    {S : Type 0}
    → (Err → Option ℕ)
    → Text
    → Any
    → (S → S × Option CallErr)
    → Call
    → World
    → S
    → World × S × Ended (Option CallErr)
unfolding intercept_with show_reply to_status
unary_client from_error method reply invoker c w s =
    intercept_with (λ e. some (to_status from_error e)) is_some (show_reply reply) invoker c
      (record { kind = Kinds.grpc_client; name = method; method = bytes "unary"; attrs = [] }) w s

module _ {S R : Type 0} (fails : Err → R) (failed : R → Bool) (handler : S → S × Ended R) where
  -- The report of a handler that returned; nothing is deferred, so a panic goes through.
  unfoldable pub report_handled : Action → World → S × Ended R → World × S × Ended R
  unfolding report_outcome
  report_handled a w (s, ends r) = (report_outcome a (failed r) w, s, ends r)
  report_handled a w (s, panics v) = (w, s, panics v)

  -- What follows `Before` in an interceptor of the server.
  unfoldable pub proceed_handling : Action → World → S → Outcome → World × S × Ended R
  unfolding report_handled report_outcome
  proceed_handling a w s (panicked v) = (w, s, panics v)
  proceed_handling a w s (returned (some e)) = (report_outcome a true w, s, ends (fails e))
  proceed_handling a w s (returned none) = report_handled a w (handler s)

  -- An interceptor of the server: the handler alone where the engine is not enabled.
  unfoldable pub handle_with : Call → Op → World → S → World × S × Ended R
  unfolding proceed_handling
  handle_with c op w s =
      let (evaluated, a) = eval c op w in
      let (a', begun, o) = before c.ctx a evaluated in
      if enabled w.engine then proceed_handling a' begun s o else (w, (handler s).0, (handler s).1)

-- The op of a call that a server handles.
abbrev pub server_op : Text → Text → Op
server_op full_method method = record {
  kind = Kinds.grpc_server;
  name = full_method;
  method = method;
  attrs = [];
}

-- `UnaryServerInterceptor`.
unfoldable pub unary_server :
    {S V : Type 0}
    → (Err → Option ℕ)
    → Text
    → (S → S × Ended (Returned V))
    → Call
    → World
    → S
    → World × S × Ended (Returned V)
unfolding handle_with to_status
unary_server from_error full_method handler c w s =
    handle_with (λ e. (none, some (to_status from_error e))) has_failed handler c
      (server_op full_method (bytes "unary")) w s

-- `StreamClientInterceptor`.
unfoldable pub stream_client :
    {S V : Type 0}
    → (Err → Option ℕ)
    → Text
    → (S → S × Returned V)
    → Call
    → World
    → S
    → World × S × Ended (Returned V)
unfolding intercept_value to_status
stream_client from_error method streamer c w s =
    intercept_value (to_status from_error) streamer c
      (record { kind = Kinds.grpc_client; name = method; method = bytes "stream"; attrs = [] }) w s

-- `StreamServerInterceptor`.
unfoldable pub stream_server :
    {S : Type 0}
    → (Err → Option ℕ)
    → Text
    → (S → S × Ended (Option CallErr))
    → Call
    → World
    → S
    → World × S × Ended (Option CallErr)
unfolding handle_with to_status
stream_server from_error full_method handler c w s =
    handle_with (λ e. some (to_status from_error e)) is_some handler c
      (server_op full_method (bytes "stream")) w s
