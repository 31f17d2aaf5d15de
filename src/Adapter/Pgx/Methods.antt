-- ===== src/Adapter/Pgx/Methods.antt =====
-- The methods of pools, connections and transactions.
use chaotic.Base.{Text, ℕ}
use chaotic.Engine.Rule.{Call}
use chaotic.Engine.World.{World}
use chaotic.Adapter.{Returned, has_failed, opening}
use chaotic.Adapter.Pgx.Settling.{Finishes}
use chaotic.Adapter.Pgx.{Strings, TxOptions, with_err, with_chaos, is_chaos, deferring, stay}
use chaotic.Adapter.Pgx.Pool.{
  pool_query, pool_exec, pool_query_row, pool_send_batch, pool_begin, pool_begin_tx, pool_acquire,
}
use chaotic.Adapter.Pgx.Conn.{
  conn_query, conn_exec, conn_query_row, conn_send_batch, conn_begin, conn_begin_tx,
}
use chaotic.Adapter.Pgx.Tx.{tx_query, tx_exec, tx_query_row, tx_send_batch}

-- The methods of pools, connections and transactions finish.
abbrev pub MethodsFinish :
    {S V : Type 0}
    → Strings
    → Text
    → ℕ
    → TxOptions
    → (S → S × Returned V)
    → (S → S × V)
    → (S → S)
    → Call
    → World
    → S
    → Type 0
MethodsFinish lib sql n_args options fetch row close c w s =
    Finishes with_err has_failed fetch stay w s (pool_query lib sql n_args fetch c w s)
    × Finishes with_err has_failed fetch stay w s (pool_exec lib sql n_args fetch c w s)
    × Finishes with_chaos is_chaos (deferring row) stay w s
        (pool_query_row lib sql n_args row c w s)
    × Finishes with_chaos is_chaos (deferring row) stay w s (pool_send_batch lib n_args row c w s)
    × Finishes with_err has_failed (opening fetch) stay w s (pool_begin fetch c w s)
    × Finishes with_err has_failed (opening fetch) stay w s (pool_begin_tx options fetch c w s)
    × Finishes with_err has_failed (opening fetch) stay w s (pool_acquire fetch c w s)
    × Finishes with_err has_failed fetch close w s (conn_query lib sql n_args fetch close c w s)
    × Finishes with_err has_failed fetch close w s (conn_exec lib sql n_args fetch close c w s)
    × Finishes with_chaos is_chaos (deferring row) close w s
        (conn_query_row lib sql n_args row close c w s)
    × Finishes with_chaos is_chaos (deferring row) close w s
        (conn_send_batch lib n_args row close c w s)
    × Finishes with_err has_failed (opening fetch) close w s (conn_begin fetch close c w s)
    × Finishes with_err has_failed (opening fetch) close w s
        (conn_begin_tx options fetch close c w s)
    × Finishes with_err has_failed fetch close w s (tx_query lib sql n_args fetch close c w s)
    × Finishes with_err has_failed fetch close w s (tx_exec lib sql n_args fetch close c w s)
    × Finishes with_chaos is_chaos (deferring row) close w s
        (tx_query_row lib sql n_args row close c w s)
    × Finishes with_chaos is_chaos (deferring row) close w s
        (tx_send_batch lib n_args row close c w s)
