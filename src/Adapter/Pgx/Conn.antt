-- ===== src/Adapter/Pgx/Conn.antt =====
-- The methods of a connection (adapter/pgx/conn.go). An argument closes it.
use chaotic.Base.{ℕ, false, Text, bytes}
use chaotic.Engine.Rule.{Call}
use chaotic.Engine.World.{World}
use chaotic.Adapter.{Ended, Returned, Wrapped, has_failed, opening}
use chaotic.Adapter.Pgx.{
  Strings, TxOptions, Deferred, op_query, op_batch, op_begin, call_closing, is_chaos, with_err,
  with_chaos, deferring, no_options,
}

-- `Conn.Query`.
unfoldable pub conn_query :
    {S V : Type 0}
    → Strings
    → Text
    → ℕ
    → (S → S × Returned V)
    → (S → S)
    → Call
    → World
    → S
    → World × S × Ended (Returned V)
unfolding call_closing op_query
conn_query lib sql n_args inner close c w s =
    call_closing with_err has_failed inner close (op_query lib (bytes "query") sql n_args false) c w
      s

-- `Conn.Exec`.
unfoldable pub conn_exec :
    {S V : Type 0}
    → Strings
    → Text
    → ℕ
    → (S → S × Returned V)
    → (S → S)
    → Call
    → World
    → S
    → World × S × Ended (Returned V)
unfolding call_closing op_query
conn_exec lib sql n_args inner close c w s =
    call_closing with_err has_failed inner close (op_query lib (bytes "exec") sql n_args false) c w
      s

-- `Conn.QueryRow`: an outcome of nil is reported, as the query has not run yet.
unfoldable pub conn_query_row :
    {S V : Type 0}
    → Strings
    → Text
    → ℕ
    → (S → S × V)
    → (S → S)
    → Call
    → World
    → S
    → World × S × Ended (Deferred V)
unfolding call_closing op_query
conn_query_row lib sql n_args inner close c w s =
    call_closing with_chaos is_chaos (deferring inner) close
      (op_query lib (bytes "queryrow") sql n_args false) c w s

-- `Conn.SendBatch`: likewise.
unfoldable pub conn_send_batch :
    {S V : Type 0}
    → Strings
    → ℕ
    → (S → S × V)
    → (S → S)
    → Call
    → World
    → S
    → World × S × Ended (Deferred V)
unfolding call_closing op_batch
conn_send_batch lib size inner close c w s =
    call_closing with_chaos is_chaos (deferring inner) close (op_batch lib size false) c w s

-- `Conn.Begin`: a transaction is wrapped.
unfoldable pub conn_begin :
    {S V : Type 0}
    → (S → S × Returned V)
    → (S → S)
    → Call
    → World
    → S
    → World × S × Ended (Returned (Wrapped V))
unfolding call_closing op_begin
conn_begin inner close c w s =
    call_closing with_err has_failed (opening inner) close (op_begin no_options) c w s

-- `Conn.BeginTx`.
unfoldable pub conn_begin_tx :
    {S V : Type 0}
    → TxOptions
    → (S → S × Returned V)
    → (S → S)
    → Call
    → World
    → S
    → World × S × Ended (Returned (Wrapped V))
unfolding call_closing op_begin
conn_begin_tx options inner close c w s =
    call_closing with_err has_failed (opening inner) close (op_begin options) c w s
