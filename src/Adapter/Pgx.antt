-- ===== src/Adapter/Pgx.antt =====
-- The adapter of pgx (adapter/pgx/): its ops, and the steps that the methods of pools, connections and
-- transactions share. The real call, with its arguments, is a parameter.
pub mod Pool
pub mod Conn
pub mod Tx
pub mod Settling
pub mod Methods
use chaotic.Base.{
  ℕ, Bool, true, false, if◌then◌else◌, List, [], ◌∷◌, ◌++◌, Option, none, some, Text, bytes, Map,
}
use chaotic.Fault.{Any, Err, Outcome, returned, panicked}
use chaotic.Engine.Op.{Op}
use chaotic.Engine.Op.Kinds
use chaotic.Engine.Rule.{Call}
use chaotic.Engine.World.{World, Action, enabled, is_nil}
use chaotic.Engine.Eval.{eval}
use chaotic.Engine.Action.{before}
use chaotic.Sqlclass.{Classification, Run, done, out_of_range, out_of_fuel, classify}
use chaotic.Adapter.{
  CallErr, op_error, unexpected_eof, Ended, ends, panics, Returned, Wrapped, is_conn_drop,
  on_conn_drop, has_failed, opening, as_it_is, report_outcome, intercept_with,
}
use chaotic.Adapter.Sql.{slice_panic}

-- `translate`: ErrConnDrop is a read from a broken connection.
unfoldable pub translate : Err → CallErr
translate = on_conn_drop (op_error (bytes "read") (bytes "tcp") unexpected_eof)

-- A row or the results of a batch, whose query runs when they are read; or one that yields an error.
pub data Deferred (V : Type 0) : Type 0 where
  real : V → Deferred V
  chaos : CallErr → Deferred V

abbrev pub is_chaos : {V : Type 0} → Deferred V → Bool
is_chaos (real v) = false
is_chaos (chaos e) = true

abbrev bool_str : Bool → Text
bool_str true = bytes "true"
bool_str false = bytes "false"

-- What the ops call of the library: `strings.ToUpper` and `strconv.Itoa`.
pub record Strings : Type 0 where
  pub upper : Text → Text
  pub itoa : ℕ → Text

abbrev query_name : Classification → Text
query_name c = if is_nil c.table then c.verb else c.verb ++ b' ' ∷ c.table

-- `opQuery` on a classification; `none` is a panic of `Classify`.
unfoldable pub query_op : Strings → Text → Text → ℕ → Bool → Run Classification → Option Op
query_op lib method sql n_args in_tx out_of_range = none
query_op lib method sql n_args in_tx out_of_fuel = none
query_op lib method sql n_args in_tx (done c) = some (record {
  kind = Kinds.pgx;
  name = query_name c;
  method = method;
  attrs =
      (bytes "table", c.table)
      ∷ (bytes "args", lib.itoa n_args)
      ∷ (bytes "tx", bool_str in_tx)
      ∷ (bytes "sql", sql)
      ∷ [];
})

unfoldable pub op_query : Strings → Text → Text → ℕ → Bool → Option Op
unfolding query_op
op_query lib method sql n_args in_tx = query_op lib method sql n_args in_tx (classify lib.upper sql)

-- `opBatch`.
unfoldable pub op_batch : Strings → ℕ → Bool → Option Op
op_batch lib size in_tx = some (record {
  kind = Kinds.pgx;
  name = bytes "BATCH";
  method = bytes "batch";
  attrs = (bytes "batch_size", lib.itoa size) ∷ (bytes "tx", bool_str in_tx) ∷ [];
})

-- The options of a transaction.
pub record TxOptions : Type 0 where
  pub iso_level : Text
  pub access_mode : Text
  pub deferrable : Bool

-- `opBegin`, and its arguments in `Begin`.
unfoldable pub op_begin : TxOptions → Option Op
op_begin o = some (record {
  kind = Kinds.pgx;
  name = bytes "BEGIN";
  method = bytes "begin";
  attrs =
      (bytes "iso_level", o.iso_level)
      ∷ (bytes "access_mode", o.access_mode)
      ∷ (bytes "deferrable", bool_str o.deferrable)
      ∷ [];
})

abbrev pub no_options : TxOptions
no_options = record { iso_level = []; access_mode = []; deferrable = false }

-- `opAcquire`.
unfoldable pub op_acquire : Option Op
op_acquire =
    some (record { kind = Kinds.pgx; name = bytes "ACQUIRE"; method = bytes "acquire"; attrs = [] })

module _ {S R : Type 0} (fails : Err → R) (failed : R → Bool) (inner : S → S × R)
    (close : S → S) where
  -- What follows `Before` in `runChaos` and its caller: a dropped connection is closed.
  unfoldable pub proceed_closing : Action → World → S → Outcome → World × S × Ended R
  unfolding report_outcome
  proceed_closing a w s (panicked v) = (w, s, panics v)
  proceed_closing a w s (returned (some e)) =
      (report_outcome a true w, if is_conn_drop e then close s else s, ends (fails e))
  proceed_closing a w s (returned none) =
      let (s', r) = inner s in (report_outcome a (failed r) w, s', ends r)

  unfoldable pub run_closing : Option Op → Call → World → S → World × S × Ended R
  unfolding proceed_closing
  run_closing none c w s = (w, s, panics slice_panic)
  run_closing (some op) c w s =
      let (evaluated, a) = eval c op w in
      let (a', begun, o) = before c.ctx a evaluated in proceed_closing a' begun s o

  -- A method of a connection or of a transaction.
  unfoldable pub call_closing : Option Op → Call → World → S → World × S × Ended R
  unfolding run_closing
  call_closing op c w s =
      if enabled w.engine then run_closing op c w s else (w, (inner s).0, ends (inner s).1)

abbrev pub with_err : {V : Type 0} → Err → Returned V
with_err e = (none, some (translate e))

abbrev pub with_chaos : {V : Type 0} → Err → Deferred V
with_chaos e = chaos (translate e)

abbrev pub deferring : {S V : Type 0} → (S → S × V) → S → S × Deferred V
deferring inner s = ((inner s).0, real (inner s).1)

-- What closes the connection: nothing for a pool.
abbrev pub stay : {S : Type 0} → S → S
stay s = s
