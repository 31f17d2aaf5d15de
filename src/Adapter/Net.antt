-- ===== src/Adapter/Net.antt =====
-- The adapter of net (adapter/net/net.go): connections, listeners and dialers. The real call, with its
-- arguments, is a parameter; the value of a read or a write is its count of bytes.
use chaotic.Base.{[], ◌∷◌, Option, none, some, Text, bytes, if◌then◌else◌}
use chaotic.Fault.{Err}
use chaotic.Engine.Op.{Op}
use chaotic.Engine.Op.Kinds
use chaotic.Engine.Rule.{Call}
use chaotic.Engine.World.{World}
use chaotic.Adapter.{
  CallErr, Ended, Returned, Wrapped, background, opening, intercept_value, is_conn_drop,
  is_disconnect, eof, unexpected_eof, injected, op_error,
}

-- `mapErr`: ErrConnDrop is a reset by the peer, ErrDisconnect an orderly close.
unfoldable pub map_err : Text → Text → Err → CallErr
map_err method network e =
    if is_conn_drop e
    then op_error method network unexpected_eof
    else if is_disconnect e
    then op_error method network eof
    else injected e

-- `addrInfo`, of an address that has a name and a network, or of nil.
unfoldable pub addr_info : Option (Text × Text) → Text × Text
addr_info none = ([], [])
addr_info (some a) = a

-- `Conn.op`.
unfoldable pub op : Text → Text → Text → Op
op name network method = record {
  kind = Kinds.net;
  name = name;
  method = method;
  attrs = (bytes "network", network) ∷ [];
}

-- `Conn.Read`, of a connection to the remote address.
unfoldable pub read :
    {S V : Type 0}
    → Option (Text × Text)
    → (S → S × Returned V)
    → Call
    → World
    → S
    → World × S × Ended (Returned V)
unfolding intercept_value op addr_info
read remote inner c w s =
    let (name, network) = addr_info remote in
    intercept_value (map_err (bytes "read") network) inner (background c)
      (op name network (bytes "read")) w s

-- `Conn.Write`.
unfoldable pub write :
    {S V : Type 0}
    → Option (Text × Text)
    → (S → S × Returned V)
    → Call
    → World
    → S
    → World × S × Ended (Returned V)
unfolding intercept_value op addr_info
write remote inner c w s =
    let (name, network) = addr_info remote in
    intercept_value (map_err (bytes "write") network) inner (background c)
      (op name network (bytes "write")) w s

-- `Dialer.DialContext`: a connection that opens is wrapped.
unfoldable pub dial_context :
    {S V : Type 0}
    → Text
    → Text
    → (S → S × Returned V)
    → Call
    → World
    → S
    → World × S × Ended (Returned (Wrapped V))
unfolding intercept_value op
dial_context network address inner c w s =
    intercept_value (map_err (bytes "dial") network) (opening inner) c
      (op address network (bytes "dial")) w s

-- `Listener.Accept`: no fault, and the connection is wrapped.
unfoldable pub accept : {S V : Type 0} → (S → S × Returned V) → S → S × Returned (Wrapped V)
accept inner s = opening inner s
