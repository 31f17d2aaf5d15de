-- ===== src/Adapter/Sql.antt =====
-- The driver of database/sql (adapter/sql/driver.go, conn_optional.go): connections and statements. The
-- real calls are parameters; `none` is an optional interface that the wrapped value does not have.
pub mod Settling
use chaotic.Base.{
  Bool, true, false, if◌then◌else◌, List, [], ◌∷◌, Option, none, some, Text, bytes, Map,
}
use chaotic.Fault.{Any, Err}
use chaotic.Engine.Op.{Op}
use chaotic.Engine.Op.Kinds
use chaotic.Engine.Rule.{Call}
use chaotic.Engine.World.{World, enabled, is_nil}
use chaotic.Sqlclass.{Classification, Run, done, out_of_range, out_of_fuel, classify}
use chaotic.Adapter.{
  CallErr, own, bad_conn, skip, Ended, ends, panics, Returned, on_conn_drop, background,
  intercept_value,
}

-- `translate`: ErrConnDrop becomes driver.ErrBadConn, after which database/sql tries again.
unfoldable pub translate : Err → CallErr
translate = on_conn_drop bad_conn

-- The panic of a slice expression.
abbrev pub slice_panic : Any
slice_panic = Any.text (bytes "slice bounds out of range")

unfoldable pub verb_of : Run Classification → Option Text
verb_of (done c) = some c.verb
verb_of out_of_range = none
verb_of out_of_fuel = none

-- `classifySQL`, given `strings.ToUpper`; `none` is a panic.
unfoldable pub classify_sql : (Text → Text) → Text → Option Text
unfolding verb_of
classify_sql upper q = verb_of (classify upper q)

-- The op of `runChaos`, with the attributes of a connection or of a statement.
unfoldable pub op_of : Map Text → Text → Op
op_of attrs method = record { kind = Kinds.sql; name = method; method = method; attrs = attrs }

abbrev pub conn_attrs : Text → Map Text
conn_attrs query = if is_nil query then [] else (bytes "query", query) ∷ []

abbrev pub stmt_attrs : Text → Map Text
stmt_attrs query = (bytes "query", query) ∷ []

module _ {S V : Type 0} where
  -- The call of a text that was classified.
  unfoldable pub run_classified :
      Option Text
      → Map Text
      → (S → S × Returned V)
      → Call
      → World
      → S
      → World × S × Ended (Returned V)
  unfolding intercept_value translate op_of
  run_classified none attrs inner c w s = (w, s, panics slice_panic)
  run_classified (some verb) attrs inner c w s =
      intercept_value translate inner c (op_of attrs verb) w s

  -- `chaosConn.ExecContext` and `QueryContext`: the text is classified first, on a disabled engine, too.
  unfoldable pub conn_context :
      (Text → Text)
      → Text
      → Option (S → S × Returned V)
      → Call
      → World
      → S
      → World × S × Ended (Returned V)
  unfolding run_classified classify_sql
  conn_context upper query none c w s = (w, s, ends (none, some skip))
  conn_context upper query (some inner) c w s =
      run_classified (classify_sql upper query) (conn_attrs query) inner c w s

  -- `chaosStmt.Exec` and `Query`: the text is classified on an enabled engine.
  unfoldable pub stmt_call :
      (Text → Text)
      → Text
      → (S → S × Returned V)
      → Call
      → World
      → S
      → World × S × Ended (Returned V)
  unfolding run_classified classify_sql
  stmt_call upper query inner c w s =
      if enabled w.engine
      then run_classified (classify_sql upper query) (stmt_attrs query) inner (background c) w s
      else (w, (inner s).0, ends (inner s).1)

-- A wrapped statement: what it wraps, and its text.
pub record Stmt (V : Type 0) : Type 0 where
  pub wrapped : V
  pub query : Text

unfoldable pub with_query : {V : Type 0} → Text → Returned V → Returned (Stmt V)
with_query query (v, some e) = (none, some e)
with_query query (none, none) = (none, none)
with_query query (some v, none) = (some (record { wrapped = v; query = query }), none)

-- `chaosConn.Prepare` and `PrepareContext`, which passes the context on where the connection takes it.
unfoldable pub prepare : {S V : Type 0} → Text → (S → S × Returned V) → S → S × Returned (Stmt V)
unfolding with_query
prepare query inner s = ((inner s).0, with_query query (inner s).1)

unfoldable pub prepare_context :
    {S V : Type 0}
    → Text
    → (S → S × Returned V)
    → Option (S → S × Returned V)
    → S
    → S × Returned (Stmt V)
unfolding prepare
prepare_context query inner none s = prepare query inner s
prepare_context query inner (some with_ctx) s = prepare query with_ctx s

-- `chaosConn.BeginTx`.
unfoldable pub begin_tx :
    {S V : Type 0} → (S → S × Returned V) → Option (S → S × Returned V) → S → S × Returned V
begin_tx begin none s = begin s
begin_tx begin (some with_ctx) s = with_ctx s

-- `ResetSession`, `IsValid` and `CheckNamedValue`.
unfoldable pub reset_session :
    {S : Type 0} → Option (S → S × Option CallErr) → S → S × Option CallErr
reset_session none s = (s, none)
reset_session (some reset) s = reset s

unfoldable pub is_valid : {S : Type 0} → Option (S → Bool) → S → Bool
is_valid none s = true
is_valid (some valid) s = valid s

unfoldable pub check_named_value :
    {S : Type 0} → Option (S → S × Option CallErr) → S → S × Option CallErr
check_named_value none s = (s, some skip)
check_named_value (some check) s = check s
