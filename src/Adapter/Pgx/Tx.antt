-- ===== src/Adapter/Pgx/Tx.antt =====
-- The methods of a transaction (adapter/pgx/tx.go). An argument closes its connection.
use chaotic.Base.{ℕ, true, Text, bytes}
use chaotic.Engine.Rule.{Call}
use chaotic.Engine.World.{World}
use chaotic.Adapter.{Ended, Returned, has_failed}
use chaotic.Adapter.Pgx.{
  Strings, Deferred, op_query, op_batch, call_closing, is_chaos, with_err, with_chaos, deferring,
}

-- `Tx.Query`.
unfoldable pub tx_query :
    {S V : Type 0}
    → Strings
    → Text
    → ℕ
    → (S → S × Returned V)
    → (S → S)
    → Call
    → World
    → S
    → World × S × Ended (Returned V)
unfolding call_closing op_query
tx_query lib sql n_args inner close c w s =
    call_closing with_err has_failed inner close (op_query lib (bytes "query") sql n_args true) c w
      s

-- `Tx.Exec`.
unfoldable pub tx_exec :
    {S V : Type 0}
    → Strings
    → Text
    → ℕ
    → (S → S × Returned V)
    → (S → S)
    → Call
    → World
    → S
    → World × S × Ended (Returned V)
unfolding call_closing op_query
tx_exec lib sql n_args inner close c w s =
    call_closing with_err has_failed inner close (op_query lib (bytes "exec") sql n_args true) c w s

-- `Tx.QueryRow`: an outcome of nil is reported, as the query has not run yet.
unfoldable pub tx_query_row :
    {S V : Type 0}
    → Strings
    → Text
    → ℕ
    → (S → S × V)
    → (S → S)
    → Call
    → World
    → S
    → World × S × Ended (Deferred V)
unfolding call_closing op_query
tx_query_row lib sql n_args inner close c w s =
    call_closing with_chaos is_chaos (deferring inner) close
      (op_query lib (bytes "queryrow") sql n_args true) c w s

-- `Tx.SendBatch`: likewise.
unfoldable pub tx_send_batch :
    {S V : Type 0}
    → Strings
    → ℕ
    → (S → S × V)
    → (S → S)
    → Call
    → World
    → S
    → World × S × Ended (Deferred V)
unfolding call_closing op_batch
tx_send_batch lib size inner close c w s =
    call_closing with_chaos is_chaos (deferring inner) close (op_batch lib size true) c w s
