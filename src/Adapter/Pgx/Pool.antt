-- ===== src/Adapter/Pgx/Pool.antt =====
-- The methods of a pool (adapter/pgx/pool.go).
use chaotic.Base.{ℕ, false, Text, bytes}
use chaotic.Engine.Rule.{Call}
use chaotic.Engine.World.{World}
use chaotic.Adapter.{Ended, Returned, Wrapped, has_failed, opening}
use chaotic.Adapter.Pgx.{
  Strings, TxOptions, Deferred, op_query, op_batch, op_begin, op_acquire, call_closing, is_chaos,
  with_err, with_chaos, deferring, stay, no_options,
}

-- `Pool.Query`.
unfoldable pub pool_query :
    {S V : Type 0}
    → Strings
    → Text
    → ℕ
    → (S → S × Returned V)
    → Call
    → World
    → S
    → World × S × Ended (Returned V)
unfolding call_closing op_query
pool_query lib sql n_args inner c w s =
    call_closing with_err has_failed inner stay (op_query lib (bytes "query") sql n_args false) c w
      s

-- `Pool.Exec`.
unfoldable pub pool_exec :
    {S V : Type 0}
    → Strings
    → Text
    → ℕ
    → (S → S × Returned V)
    → Call
    → World
    → S
    → World × S × Ended (Returned V)
unfolding call_closing op_query
pool_exec lib sql n_args inner c w s =
    call_closing with_err has_failed inner stay (op_query lib (bytes "exec") sql n_args false) c w s

-- `Pool.QueryRow`: an outcome of nil is reported, as the query has not run yet.
unfoldable pub pool_query_row :
    {S V : Type 0}
    → Strings
    → Text
    → ℕ
    → (S → S × V)
    → Call
    → World
    → S
    → World × S × Ended (Deferred V)
unfolding call_closing op_query
pool_query_row lib sql n_args inner c w s =
    call_closing with_chaos is_chaos (deferring inner) stay
      (op_query lib (bytes "queryrow") sql n_args false) c w s

-- `Pool.SendBatch`: likewise.
unfoldable pub pool_send_batch :
    {S V : Type 0} → Strings → ℕ → (S → S × V) → Call → World → S → World × S × Ended (Deferred V)
unfolding call_closing op_batch
pool_send_batch lib size inner c w s =
    call_closing with_chaos is_chaos (deferring inner) stay (op_batch lib size false) c w s

-- `Pool.Begin`: a transaction is wrapped.
unfoldable pub pool_begin :
    {S V : Type 0}
    → (S → S × Returned V)
    → Call
    → World
    → S
    → World × S × Ended (Returned (Wrapped V))
unfolding call_closing op_begin
pool_begin inner c w s =
    call_closing with_err has_failed (opening inner) stay (op_begin no_options) c w s

-- `Pool.BeginTx`.
unfoldable pub pool_begin_tx :
    {S V : Type 0}
    → TxOptions
    → (S → S × Returned V)
    → Call
    → World
    → S
    → World × S × Ended (Returned (Wrapped V))
unfolding call_closing op_begin
pool_begin_tx options inner c w s =
    call_closing with_err has_failed (opening inner) stay (op_begin options) c w s

-- `Pool.Acquire`: a connection is wrapped.
unfoldable pub pool_acquire :
    {S V : Type 0}
    → (S → S × Returned V)
    → Call
    → World
    → S
    → World × S × Ended (Returned (Wrapped V))
unfolding call_closing op_acquire
pool_acquire inner c w s = call_closing with_err has_failed (opening inner) stay op_acquire c w s
