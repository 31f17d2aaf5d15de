-- ===== src/Adapter/Httpsrv.antt =====
-- The server's middleware (adapter/httpsrv/middleware.go).
pub mod Settling
use chaotic.Base.{
  Bool, true, false, if◌then◌else◌, leb_ℤ, ℤ, pos, List, [], ◌∷◌, Option, none, some, Text, bytes,
}
use chaotic.Fault.{
  Any, Err, conn_drop_err, disconnect_err, http_status_err, header_err, stream_err, context_err,
  plain_err, Outcome, returned, panicked,
}
use chaotic.Engine.Op.{Op}
use chaotic.Engine.Op.Kinds
use chaotic.Engine.Rule.{Call}
use chaotic.Engine.World.{World, Action, enabled, is_nil}
use chaotic.Engine.Eval.{eval}
use chaotic.Engine.Action.{before}
use chaotic.Adapter.{report_outcome}

-- What a handler does with its writer, in order.
pub data Write : Type 0 where
  header : ℤ → Write
  body : Text → Write

-- `statusRecorder`.
pub record StatusRecorder : Type 0 where
  pub status : ℤ
  pub written : Bool

-- `WriteHeader`, which keeps the first code, and `Write`.
unfoldable pub record_write : Write → StatusRecorder → StatusRecorder
record_write (header code) r = if r.written then r else record { status = code; written = true }
record_write (body text) r = record r { written = true }

unfoldable pub record_writes : List Write → StatusRecorder → StatusRecorder
unfolding record_write
record_writes [] r = r
record_writes (x ∷ xs) r = record_writes xs (record_write x r)

-- What the server's writer offers to a connection drop.
pub data Hijack : Type 0 where
  no_hijacker hijack_fails hijacked : Hijack

-- The answer to a request: what the handler wrote, an error of the middleware, or a closed
-- connection; and a panic, after what was written.
pub data Answer : Type 0 where
  served : List Write → Answer
  refused : ℤ → Text → Answer
  closed : Answer
  panics : List Write → Any → Answer

-- `handleErr`, given the panic of `WriteHeader` on a code that it rejects, `http.StatusText` and the
-- texts of errors.
unfoldable pub handle_err : (ℤ → Option Any) → (ℤ → Text) → (Err → Text) → Hijack → Err → Answer
handle_err rejects status_text text hj (http_status_err code b) = elim (rejects code) [
  | none ↦ refused code (if is_nil b then status_text code else b)
  | some v ↦ panics [] v
]
handle_err rejects status_text text no_hijacker conn_drop_err =
    refused (pos 500) (bytes "chaotic: conn drop (no hijacker)")
handle_err rejects status_text text hijack_fails conn_drop_err =
    refused (pos 500) (bytes "chaotic: conn drop (hijack failed)")
handle_err rejects status_text text hijacked conn_drop_err = closed
handle_err rejects status_text text hj e = refused (pos 500) (text e)

-- What the middleware reads of a request, and the server around it: headers, the writer,
-- the panic of `WriteHeader` on a code that net/http rejects, and the texts of statuses and errors.
pub record Exchange (H : Type 0) : Type 0 where
  pub path : Text
  pub method : Text
  pub remote : Text
  pub headers : H
  pub hijack : Hijack
  pub del : Text → H → H
  pub set : Text → Text → H → H
  pub rejects : ℤ → Option Any
  pub status_text : ℤ → Text
  pub error_text : Err → Text

-- A handler: what it writes, and the value of its panic if it panics.
abbrev pub Handler : Type 0 → Type 0 → Type 0
Handler H S = H → S → S × List Write × Option Any

abbrev pub answer : List Write → Option Any → Answer
answer xs none = served xs
answer xs (some v) = panics xs v

module _ {H S : Type 0} (next : Handler H S) where
  -- The handler under the recorder, and the report after it; a panic of the handler goes through,
  -- as nothing is deferred.
  unfoldable pub serve : H → Action → World → S → World × S × Answer
  unfolding record_writes report_outcome
  serve h a w s =
      let (s', xs, p) = next h s in
      let rec = record_writes xs (record { status = pos 200; written = false }) in
      elim p [
        | none ↦ (report_outcome a (leb_ℤ (pos 500) rec.status) w, s', served xs)
        | some v ↦ (w, s', panics xs v)
      ]

  -- `applyHeaderFault`.
  unfoldable pub apply_header_fault : Exchange H → Bool → Text → Text → H
  apply_header_fault x strip key value =
      if strip then x.del key x.headers else x.set key value x.headers

  unfoldable pub abort : Exchange H → Action → World → S → Err → World × S × Answer
  unfolding report_outcome handle_err
  abort x a w s e =
      (report_outcome a true w, s, handle_err x.rejects x.status_text x.error_text x.hijack e)

  -- What follows `Before`.
  unfoldable pub proceed : Exchange H → Action → World → S → Outcome → World × S × Answer
  unfolding serve abort apply_header_fault
  proceed x a w s (panicked v) = (w, s, panics [] v)
  proceed x a w s (returned none) = serve x.headers a w s
  proceed x a w s (returned (some (header_err strip key value))) =
      serve (apply_header_fault x strip key value) a w s
  proceed x a w s (returned (some e)) = abort x a w s e

  unfoldable pub engine_serve : Exchange H → Call → World → S → World × S × Answer
  unfolding proceed
  engine_serve x c w s =
      let op : Op = record {
        kind = Kinds.http_server;
        name = x.path;
        method = x.method;
        attrs = (bytes "remote", x.remote) ∷ [];
      } in
      let (evaluated, a) = eval c op w in
      let (a', begun, o) = before c.ctx a evaluated in proceed x a' begun s o

  -- `Middleware`.
  unfoldable pub middleware : Exchange H → Call → World → S → World × S × Answer
  unfolding engine_serve
  middleware x c w s =
      if enabled w.engine
      then engine_serve x c w s
      else let (s', xs, p) = next x.headers s in (w, s', answer xs p)
