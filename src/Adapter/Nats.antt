-- ===== src/Adapter/Nats.antt =====
-- The adapter of nats.go (adapter/nats/nats.go): connections and the dialer. The real call, with its
-- arguments, is a parameter of each method.
use chaotic.Base.{[], ◌∷◌, Option, Text, bytes, if◌then◌else◌}
use chaotic.Fault.{Err}
use chaotic.Engine.Op.{Op}
use chaotic.Engine.Op.Kinds
use chaotic.Engine.Rule.{Call}
use chaotic.Engine.World.{World, is_nil}
use chaotic.Adapter.{
  CallErr, Ended, Returned, on_conn_drop, background, intercept, intercept_value, nats_closed,
}

-- `mapErr`: ErrConnDrop becomes nats.ErrConnectionClosed.
unfoldable pub map_err : Err → CallErr
map_err = on_conn_drop nats_closed

-- `op`: a queue is an attribute where there is one.
unfoldable pub op : Text → Text → Text → Op
op subject method queue = record {
  kind = Kinds.nats;
  name = subject;
  method = method;
  attrs = if is_nil queue then [] else (bytes "queue", queue) ∷ [];
}

-- `Conn.Publish`.
unfoldable pub publish :
    {S : Type 0}
    → Text
    → (S → S × Option CallErr)
    → Call
    → World
    → S
    → World × S × Ended (Option CallErr)
unfolding intercept op
publish subj inner c w s = intercept map_err inner (background c) (op subj (bytes "publish") []) w s

-- `Conn.Request`.
unfoldable pub request :
    {S V : Type 0} → Text → (S → S × Returned V) → Call → World → S → World × S × Ended (Returned V)
unfolding intercept_value op
request subj inner c w s =
    intercept_value map_err inner (background c) (op subj (bytes "request") []) w s

-- `Conn.Drain`.
unfoldable pub drain :
    {S : Type 0} → (S → S × Option CallErr) → Call → World → S → World × S × Ended (Option CallErr)
unfolding intercept op
drain inner c w s = intercept map_err inner (background c) (op [] (bytes "drain") []) w s

-- `Conn.Subscribe`.
unfoldable pub subscribe :
    {S V : Type 0} → Text → (S → S × Returned V) → Call → World → S → World × S × Ended (Returned V)
unfolding intercept_value op
subscribe subj inner c w s =
    intercept_value map_err inner (background c) (op subj (bytes "subscribe") []) w s

-- `Conn.QueueSubscribe`.
unfoldable pub queue_subscribe :
    {S V : Type 0}
    → Text
    → Text
    → (S → S × Returned V)
    → Call
    → World
    → S
    → World × S × Ended (Returned V)
unfolding intercept_value op
queue_subscribe subj queue inner c w s =
    intercept_value map_err inner (background c) (op subj (bytes "subscribe") queue) w s

-- `chaosDialer.Dial`.
unfoldable pub dial :
    {S V : Type 0} → Text → (S → S × Returned V) → Call → World → S → World × S × Ended (Returned V)
unfolding intercept_value op
dial address inner c w s =
    intercept_value map_err inner (background c) (op address (bytes "dial") []) w s
